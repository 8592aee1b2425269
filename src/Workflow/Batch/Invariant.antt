-- ===== src/Workflow/Batch/Invariant.antt =====
-- What every run of a batch keeps, whatever the order of its steps.
use system_of_adownload.Prelude.{
  All, Bool, Bool-cases, List, Text, [], ap, arith, drop, drop-drop, inl, inr, length, map, pos,
  refl, suc, sym, take-append-drop, text_eq, text_eq_iff, true, zero, ℕ, ◌++◌, ◌+◌, ◌-◌, ◌<◌, ◌∙◌,
  ◌∷◌, ◌≡◌, ◌≢◌, ◌≤◌, ◌⊎◌,
}
use system_of_adownload.Prelude.Rows.{any}
use system_of_adownload.Workflow.Batch.{
  slice, Phase, starting, leaving, waiting, completed, failed, BatchState, record_completion, drain,
  page_end, BatchKind,
}
use system_of_adownload.Workflow.Batch.Sets.{
  IsSetOf, length-delete_record, delete_record-IsSetOf, delete_record-All,
}

-- What a batch needs of its kind: a page and a window that are not empty, and a next run that is
-- given what this one has left.
pub record BatchLaws {V : Type 0} (kind : BatchKind V) : Type 0 where
  pub has_page : 0 < kind.page_size
  pub has_window : 0 < kind.default_window
  pub keeps_window : (s : BatchState V) → (kind.next_input s).window_size ≡ pos s.window
  pub keeps_progress : (s : BatchState V) → (kind.next_input s).progress ≡ s.progress
  pub keeps_records : (s : BatchState V) → (kind.next_input s).current_records ≡ s.current
  pub keeps_rest :
      (s : BatchState V)
      → drop (kind.next_input s).offset (kind.next_input s).versions ≡ drop s.offset s.versions
  pub keeps_range :
      (s : BatchState V)
      → s.offset ≤ length s.versions
      → (kind.next_input s).offset ≤ length (kind.next_input s).versions

pub drop_past {ℓ} : {A : Type ℓ} (n : ℕ) (xs : List A) → length xs ≤ n → drop n xs ≡ []
drop_past zero [] h = refl
drop_past zero (x ∷ xs) h = absurd (omega arith)
drop_past (suc n) [] h = refl
drop_past (suc n) (x ∷ xs) h = drop_past n xs (omega arith)

pub slice-drop {ℓ} :
    {A : Type ℓ} (i j : ℕ) (xs : List A) → i ≤ j → slice i j xs ++ drop j xs ≡ drop i xs
slice-drop i j xs h =
    rw (ap (λ n. drop n xs) {x = j} {y = i + (j - i)} (omega arith))
      (rw (← drop-drop (j - i) i xs) (take-append-drop (j - i) (drop i xs)))

any-take_keys :
    (p : Text → Bool) (ks : List Text)
    → All (λ k. p k ≡ true) ks
    → (k : Text) → any (text_eq k) ks ≡ true
    → p k ≡ true
unfolding any
any-take_keys p [] h k e = ground arith
any-take_keys p (j ∷ ks) h k e = ground (arith, text_eq_iff k j, h.0, any-take_keys p ks h.1 k)

module _ {V : Type 0} (kind : BatchKind V) where
  -- The versions that are still to be started, for a phase, an offset and the versions.
  abbrev pub todo_of : Phase V → ℕ → List V → List V
  todo_of (starting page) offset versions =
      page ++ drop (page_end kind.page_size offset versions) versions
  todo_of leaving offset versions = drop offset versions
  todo_of waiting offset versions = drop offset versions
  todo_of (completed n) offset versions = []
  todo_of failed offset versions = []

  abbrev pub todo : BatchState V → List V
  todo s = todo_of s.phase s.offset s.versions

  -- The result is the total; versions are left before a next run, and none are where the run waits for
  -- its last children.
  abbrev IsCounted : ℕ → Phase V → List V → Type 0
  IsCounted total (completed n) rest = n ≡ total
  IsCounted total waiting rest = rest ≡ []
  IsCounted total leaving rest = 0 < length rest
  IsCounted total failed rest = ⊥
  IsCounted total _ rest = Unit

  -- `all`: the keys of all the versions of the batch, in their order.
  pub record Accounts (all : List Text) (s : BatchState V) : Type 0 where
    pub counts : s.progress + length s.current + length (todo s) ≡ length all
    pub in_order : s.children ++ map kind.key (todo s) ≡ all
    pub distinct : IsSetOf (s.current ++ map kind.key (todo s))
    pub counted : IsCounted (length all) s.phase (drop s.offset s.versions)

  -- The parts of the invariant that hold of a failed run too.
  pub record Bounds (s : BatchState V) : Type 0 where
    pub has_room : 0 < s.window
    pub in_window : length s.current ≤ s.window
    pub in_range : s.offset ≤ length s.versions
    pub known : All (λ k. any (text_eq k) s.children ≡ true) s.current

  abbrev pub Inv : List Text → BatchState V → Type 0
  Inv all s = Bounds s × ((s.phase ≡ failed) ⊎ Accounts all s)

  pub page_end_lem :
      (laws : BatchLaws kind) (offset : ℕ) (versions : List V)
      → offset ≤ length versions
      → (offset ≤ page_end kind.page_size offset versions)
        × (page_end kind.page_size offset versions ≤ length versions)
        × ((offset < length versions) → offset < page_end kind.page_size offset versions)
  page_end_lem laws offset versions h = ground (arith, laws.has_page)

  record_completion-Bounds :
      (k : Text) (s : BatchState V) → Bounds s → Bounds (record_completion k s)
  unfolding record_completion
  record_completion-Bounds k s h = elim (Bool-cases (any (text_eq k) s.current)) [
    | inl e ↦ rw e (record {
      has_room = h.has_room;
      in_window = omega (arith, length-delete_record k s.current e, h.in_window);
      in_range = h.in_range;
      known = delete_record-All (λ k. any (text_eq k) s.children ≡ true) k s.current h.known;
    })
    | inr e ↦ rw e h
  ]

  record_completion-Accounts :
      (all : List Text) (k : Text) (s : BatchState V)
      → Accounts all s
      → Accounts all (record_completion k s)
  unfolding record_completion
  record_completion-Accounts all k s h = elim (Bool-cases (any (text_eq k) s.current)) [
    | inl e ↦ rw e (record {
      counts = omega (arith, length-delete_record k s.current e, h.counts);
      in_order = h.in_order;
      distinct = delete_record-IsSetOf k s.current (map kind.key (todo s)) h.distinct;
      counted = h.counted;
    })
    | inr e ↦ rw e h
  ]

  pub record_completion-phase :
      (k : Text) (s : BatchState V) → (record_completion k s).phase ≡ s.phase
  unfolding record_completion
  record_completion-phase k s = ground arith

  pub record_completion-Inv :
      (all : List Text) (k : Text) (s : BatchState V) → Inv all s → Inv all (record_completion k s)
  record_completion-Inv all k s (b, inl e) =
      (record_completion-Bounds k s b, inl (record_completion-phase k s ∙ e))
  record_completion-Inv all k s (b, inr a) =
      (record_completion-Bounds k s b, inr (record_completion-Accounts all k s a))

  pub with_signals-Inv :
      (all : List Text) (ks : List Text) (s : BatchState V)
      → Inv all s
      → Inv all (record s { signals = ks })
  with_signals-Inv all ks s (b, inl e) = (
    record {
      has_room = b.has_room;
      in_window = b.in_window;
      in_range = b.in_range;
      known = b.known;
    },
    inl e,
  )
  with_signals-Inv all ks s (b, inr a) = (
    record {
      has_room = b.has_room;
      in_window = b.in_window;
      in_range = b.in_range;
      known = b.known;
    },
    inr (record {
      counts = a.counts;
      in_order = a.in_order;
      distinct = a.distinct;
      counted = a.counted;
    }),
  )

  pub record_completion-todo : (k : Text) (s : BatchState V) → todo (record_completion k s) ≡ todo s
  unfolding record_completion
  record_completion-todo k s = elim (Bool-cases (any (text_eq k) s.current)) [
    | inl e ↦ rw e refl
    | inr e ↦ rw e refl
  ]

  pub drain-rest :
      (ks : List Text) (s : BatchState V)
      → drop (drain ks s).offset (drain ks s).versions ≡ drop s.offset s.versions
  unfolding drain record_completion
  drain-rest [] s = refl
  drain-rest (k ∷ ks) s =
      drain-rest ks (record_completion k s)
      ∙ (elim (Bool-cases (any (text_eq k) s.current)) [ inl e ↦ rw e refl | inr e ↦ rw e refl ])

  pub drain-phase : (ks : List Text) (s : BatchState V) → (drain ks s).phase ≡ s.phase
  unfolding drain
  drain-phase [] s = refl
  drain-phase (k ∷ ks) s = drain-phase ks (record_completion k s) ∙ record_completion-phase k s

  -- Late signals change nothing when no version is in progress.
  pub drain-current :
      (ks : List Text) (s : BatchState V) → s.current ≡ [] → (drain ks s).current ≡ []
  unfolding drain record_completion any
  drain-current [] s e = e
  drain-current (k ∷ ks) s e =
      drain-current ks (record_completion k s) (rw (ap (any (text_eq k)) e) e)

  pub drain-Inv :
      (all : List Text) (ks : List Text) (s : BatchState V) → Inv all s → Inv all (drain ks s)
  unfolding drain
  drain-Inv all [] s h = with_signals-Inv all [] s h
  drain-Inv all (k ∷ ks) s h =
      drain-Inv all ks (record_completion k s) (record_completion-Inv all k s h)

  -- The accounts, where the phase is known and is no failure.
  pub accounts_at :
      (all : List Text) (p : Phase V) (s : BatchState V)
      → s.phase ≡ p
      → p ≢ failed
      → Inv all s
      → (s.progress + length s.current + length (todo_of p s.offset s.versions) ≡ length all)
        × (s.children ++ map kind.key (todo_of p s.offset s.versions) ≡ all)
        × IsSetOf (s.current ++ map kind.key (todo_of p s.offset s.versions))
        × IsCounted (length all) p (drop s.offset s.versions)
  accounts_at all p s e n (b, inl f) = absurd (n (sym e ∙ f))
  accounts_at all p s e n (b, inr a) = rw (← e) (a.counts, a.in_order, a.distinct, a.counted)

  pub failed-Inv :
      (all : List Text) (s : BatchState V) → Inv all s → Inv all (record s { phase = failed })
  failed-Inv all s (b, a) = (
    record {
      has_room = b.has_room;
      in_window = b.in_window;
      in_range = b.in_range;
      known = b.known;
    },
    inl refl,
  )
