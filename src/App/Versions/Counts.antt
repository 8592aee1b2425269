-- ===== src/App/Versions/Counts.antt =====
-- How many versions `GetVersions` gives, and the total beside them.
