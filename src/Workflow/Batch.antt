-- ===== src/Workflow/Batch.antt =====
-- The sliding window of internal/workflow/enrichment_batch.go, which version_batch_index.go and
-- changelog_batch.go share but for their constants, their children and what a next run is given.
-- A run is a state; what the code does between two points where it waits, and a child's signal, are
-- the steps.
use system_of_adownload.Prelude.{
  List, Text, [], drop, if◌then◌else◌, length, ltb, negsuc, pos, suc, take, text_eq, true, zero, ℕ,
  ℤ, ◌++◌, ◌+◌, ◌-◌, ◌∷◌, ◌≡◌,
}
use system_of_adownload.Prelude.Rows.{any}
pub mod Sets
pub mod Invariant
pub mod Reachable
pub mod Finish

-- A set of strings: the keys of a `map[string]bool` whose values are all true.
-- `currentRecords[version] = true`
abbrev pub add_record : Text → List Text → List Text
add_record k set = if any (text_eq k) set then set else set ++ k ∷ []

-- `delete(currentRecords, version)`
unfoldable pub delete_record : Text → List Text → List Text
delete_record k [] = []
delete_record k (j ∷ set) = if text_eq k j then set else j ∷ delete_record k set

-- `Versions[i:j]`
abbrev pub slice {ℓ} : {A : Type ℓ} → ℕ → ℕ → List A → List A
slice i j xs = take (j - i) (drop i xs)

-- The input of a run. A nil map of records is an empty one.
pub record BatchInput (V : Type 0) : Type 0 where
  pub versions : List V
  pub window_size : ℤ
  pub offset : ℕ
  pub progress : ℕ
  pub current_records : List Text

-- Where the run waits: in the loop, with the rest of the page; for the children to begin, before
-- the next run; for the last children; or not at all, with a result or an error.
pub data Phase (V : Type 0) : Type 0 where
  starting : List V → Phase V
  leaving waiting : Phase V
  completed : ℕ → Phase V
  failed : Phase V

-- `signals`: the buffer of the signal channel; `children`: the keys of all children started.
pub record BatchState (V : Type 0) : Type 0 where
  pub versions : List V
  pub window : ℕ
  pub offset : ℕ
  pub progress : ℕ
  pub current : List Text
  pub signals : List Text
  pub children : List Text
  pub phase : Phase V

module _ {V : Type 0} where
  -- `recordCompletion`: a version that is not in progress changes nothing.
  unfoldable pub record_completion : Text → BatchState V → BatchState V
  unfolding delete_record
  record_completion k s =
      if any (text_eq k) s.current
      then record s { current = delete_record k s.current; progress = suc s.progress }
      else s

  -- The loop of `drainCompletionSignals` over the buffer.
  unfoldable pub drain : List Text → BatchState V → BatchState V
  unfolding record_completion
  drain [] s = record s { signals = [] }
  drain (k ∷ ks) s = drain ks (record_completion k s)

  -- `drainCompletionSignals`
  abbrev pub drain_completion_signals : BatchState V → BatchState V
  drain_completion_signals s = drain s.signals s

  -- One round of the loop of `startCompletionPump`.
  abbrev pub pump : Text → List Text → BatchState V → BatchState V
  pump k ks s = record_completion k (record s { signals = ks })

  -- `end`, for a page size, an offset and the versions
  abbrev pub page_end : ℕ → ℕ → List V → ℕ
  page_end size offset versions =
      if ltb (length versions) (offset + size) then length versions else offset + size

-- What the three batches differ in: the size of a page, the window that is taken when the input
-- gives none, the key of a version, and the input of the run after this one.
pub record BatchKind (V : Type 0) : Type 0 where
  pub page_size : ℕ
  pub default_window : ℕ
  pub key : V → Text
  pub next_input : BatchState V → BatchInput V

module _ {V : Type 0} (kind : BatchKind V) where
  -- `if input.WindowSize <= 0 { … }`
  abbrev pub window_of : ℤ → ℕ
  window_of (pos zero) = kind.default_window
  window_of (pos (suc n)) = suc n
  window_of (negsuc n) = kind.default_window

  -- `EnrichmentBatchWorkflow`, with what the channel and the children are at its start.
  unfoldable pub begin : List Text → List Text → BatchInput V → BatchState V
  begin signals children input = record {
    versions = input.versions;
    window = window_of input.window_size;
    offset = input.offset;
    progress = input.progress;
    current = input.current_records;
    signals = signals;
    children = children;
    phase =
        starting
          (slice input.offset (page_end kind.page_size input.offset input.versions) input.versions);
  }

  -- The body of the loop of `execute`, when the window has room.
  unfoldable pub start_child : V → List V → BatchState V → BatchState V
  start_child v page s = record s {
    current = add_record (kind.key v) s.current;
    children = s.children ++ kind.key v ∷ [];
    phase = starting page;
  }

  -- The end of `execute`, and the test of `continueOrComplete`.
  unfoldable pub end_page : BatchState V → BatchState V
  end_page s =
      let e = page_end kind.page_size s.offset s.versions in
      record s { offset = e; phase = if ltb e (length s.versions) then leaving else waiting }

  -- `continueOrComplete` once the children have begun: the next run, as a new one.
  unfoldable pub continue_as_new : BatchState V → BatchState V
  unfolding begin drain
  continue_as_new s =
      let t = drain_completion_signals s in begin t.signals t.children (kind.next_input t)

  -- The end of `continueOrComplete`, when no child is left.
  unfoldable pub complete : BatchState V → BatchState V
  unfolding drain
  complete s = let t = drain_completion_signals s in record t { phase = completed t.progress }

  abbrev pub IsRunning : Phase V → Type 0
  IsRunning (completed n) = ⊥
  IsRunning failed = ⊥
  IsRunning _ = Unit

  -- Any wait may end with an error. A child may signal more than once, since a failed attempt signals too and is tried again.
  pub data Step : BatchState V → BatchState V → Type 0 where
    fills :
        (s : BatchState V) (v : V) (page : List V)
        → s.phase ≡ starting (v ∷ page)
        → ltb (length s.current) s.window ≡ true
        → Step s (start_child v page s)
    ends : (s : BatchState V) → s.phase ≡ starting [] → Step s (end_page s)
    continues : (s : BatchState V) → s.phase ≡ leaving → Step s (continue_as_new s)
    breaks : (s : BatchState V) → IsRunning s.phase → Step s (record s { phase = failed })
    completes : (s : BatchState V) → s.phase ≡ waiting → s.current ≡ [] → Step s (complete s)
    signals :
        (s : BatchState V) (k : Text)
        → any (text_eq k) s.children ≡ true
        → Step s (record s { signals = s.signals ++ k ∷ [] })
    receives :
        (s : BatchState V) (k : Text) (ks : List Text)
        → IsRunning s.phase
        → s.signals ≡ k ∷ ks
        → Step s (pump k ks s)

  pub data Reach : BatchState V → BatchState V → Type 0 where
    here : (s : BatchState V) → Reach s s
    next : (s t u : BatchState V) → Step s t → Reach t u → Reach s u
