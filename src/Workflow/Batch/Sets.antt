-- ===== src/Workflow/Batch/Sets.antt =====
-- Sets of keys as lists.
use system_of_adownload.Prelude.{
  All, Bool, Bool-cases, List, Text, [], arith, false, inl, inr, length, refl, suc, text_eq,
  text_eq_iff, true, ◌++◌, ◌∷◌, ◌≡◌,
}
use system_of_adownload.Prelude.Rows.{any, any-append, IsUnique}
use system_of_adownload.Workflow.Batch.{delete_record}

abbrev pub IsSetOf : List Text → Type 0
IsSetOf ks = IsUnique text_eq ks

text_eq_comm : (a b : Text) → text_eq a b ≡ text_eq b a
text_eq_comm a b = ground (arith, text_eq_iff a b, text_eq_iff b a)

pub length-delete_record :
    (k : Text) (ks : List Text)
    → any (text_eq k) ks ≡ true
    → length ks ≡ suc (length (delete_record k ks))
unfolding any delete_record
length-delete_record k [] h = ground arith
length-delete_record k (j ∷ ks) h = ground (arith, length-delete_record k ks)

any-delete_record :
    (p : Text → Bool) (k : Text) (ks js : List Text)
    → any p (ks ++ js) ≡ false
    → any p (delete_record k ks ++ js) ≡ false
unfolding any delete_record
any-delete_record p k [] js h = h
any-delete_record p k (i ∷ ks) js h = ground (arith, any-delete_record p k ks js)

pub delete_record-IsSetOf :
    (k : Text) (ks js : List Text) → IsSetOf (ks ++ js) → IsSetOf (delete_record k ks ++ js)
unfolding delete_record
delete_record-IsSetOf k [] js u = u
delete_record-IsSetOf k (i ∷ ks) js u = elim (Bool-cases (text_eq k i)) [
  | inl e ↦ rw e u.1
  | inr e ↦ rw e (any-delete_record (text_eq i) k ks js u.0, delete_record-IsSetOf k ks js u.1)
]

-- A key that comes later in a set is not among the earlier ones.
pub IsSetOf-fresh :
    (k : Text) (ks js : List Text) → IsSetOf (ks ++ k ∷ js) → any (text_eq k) ks ≡ false
unfolding any
IsSetOf-fresh k [] js u = refl
IsSetOf-fresh k (i ∷ ks) js u =
    ground
      (arith, u.0, any-append (text_eq i) ks (k ∷ js), text_eq_comm k i, IsSetOf-fresh k ks js u.1)

pub delete_record-All {κ} :
    (P : Text → Type κ) (k : Text) (ks : List Text) → All P ks → All P (delete_record k ks)
unfolding delete_record
delete_record-All P k [] h = tt
delete_record-All P k (j ∷ ks) h = elim (Bool-cases (text_eq k j)) [
  | inl e ↦ rw e h.1
  | inr e ↦ rw e (h.0, delete_record-All P k ks h.1)
]
