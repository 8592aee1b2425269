-- ===== src/Workflow/Batch/Finish.antt =====
-- A batch can always finish.
use mathlib.Core.Path.{subst}
use system_of_adownload.Prelude.{
  All, Bool-cases, List, List-cases, Text, [], ap, arith, drop, false, inl, inr, length,
  length-append, length-drop, length-take, ltb, map, refl, suc, sym, text_eq, text_eq_refl, true,
  zero, ℕ, ℤ, ◌*◌, ◌++◌, ◌+◌, ◌-◌, ◌<◌, ◌∙◌, ◌∷◌, ◌≡◌, ◌≢◌, ◌≤◌,
}
use system_of_adownload.Prelude.Rows.{any}
use system_of_adownload.Workflow.Batch.{
  add_record, slice, BatchInput, Phase, starting, leaving, waiting, completed, failed, BatchState,
  record_completion, drain, pump, page_end, BatchKind, begin, start_child, end_page,
  continue_as_new, complete, IsRunning, Step, fills, ends, continues, completes, signals, receives,
  Reach, here, next,
}
use system_of_adownload.Workflow.Batch.Invariant.{
  BatchLaws, slice-drop, todo_of, todo, Bounds, Inv, page_end_lem, record_completion-phase,
  record_completion-Inv, with_signals-Inv, drain-rest, drain-Inv, accounts_at,
}
use system_of_adownload.Workflow.Batch.Reachable.{
  start_child-Inv, end_page-Inv, continue_as_new-Inv, Reach-Inv, compose, first_run, first_run-Inv,
  completed_lem,
}
use system_of_adownload.Workflow.Batch.Sets.{IsSetOf, length-delete_record}

module _ {V : Type 0} (kind : BatchKind V) (laws : BatchLaws kind) (all : List Text) where
  abbrev rank : Phase V → ℕ
  rank (starting []) = 2
  rank (starting (v ∷ page)) = 0
  rank leaving = 1
  rank _ = 0

  -- What is left to do: it falls with every step but a signal.
  abbrev left : BatchState V → ℕ
  left s = 4 * length (todo kind s) + length s.current + length s.signals + rank s.phase

  CanFinish : BatchState V → Type 0
  CanFinish s = (t : BatchState V) × (n : ℕ) × Reach kind s t × (t.phase ≡ completed n)

  take_one : (s t : BatchState V) → Step kind s t → CanFinish t → CanFinish s
  unfolding CanFinish
  take_one s t step (u, n, path, e) = (u, n, next s t u step path, e)

  length-record_completion :
      (k : Text) (s : BatchState V) → length (record_completion k s).current ≤ length s.current
  unfolding record_completion
  length-record_completion k s = ground (arith, length-delete_record k s.current)

  length-drain :
      (ks : List Text) (s : BatchState V) → length (drain ks s).current ≤ length s.current
  unfolding drain
  length-drain [] s = omega arith
  length-drain (k ∷ ks) s =
      omega (arith, length-drain ks (record_completion k s), length-record_completion k s)

  drain-signals : (ks : List Text) (s : BatchState V) → (drain ks s).signals ≡ []
  unfolding drain
  drain-signals [] s = refl
  drain-signals (k ∷ ks) s = drain-signals ks (record_completion k s)

  left_at :
      (p : Phase V) (s : BatchState V)
      → s.phase ≡ p
      → left s
        ≡ 4 * length (todo_of kind p s.offset s.versions)
          + length s.current
          + length s.signals
          + rank p
  left_at p s e =
      ap
        (λ q.
          4 * length (todo_of kind q s.offset s.versions)
          + length s.current
          + length s.signals
          + rank q)
        e

  left-record_completion :
      (k : Text) (s : BatchState V)
      → (left (record_completion k s) ≤ left s)
        × (any (text_eq k) s.current ≡ true → left (record_completion k s) < left s)
  unfolding record_completion
  left-record_completion k s = elim (Bool-cases (any (text_eq k) s.current)) [
    | inl e ↦ rw e (
      omega (arith, length-delete_record k s.current e),
      λ h. omega (arith, length-delete_record k s.current e),
    )
    | inr e ↦ rw e (omega arith, λ h. cc)
  ]

  abbrev Later : ℕ → Type 0
  Later n = (t : BatchState V) → Inv kind all t → t.phase ≢ failed → left t < n → CanFinish t

  any-first : (js : List Text) (k : Text) (ks : List Text) → js ≡ k ∷ ks → any (text_eq k) js ≡ true
  unfolding any
  any-first js k ks e = ap (any (text_eq k)) e ∙ rw (text_eq_refl k) refl

  known_first :
      (s : BatchState V) (k : Text) (ks : List Text)
      → s.current ≡ k ∷ ks
      → Bounds kind s
      → any (text_eq k) s.children ≡ true
  known_first s k ks e b = (subst (λ z. All (λ j. any (text_eq j) s.children ≡ true) z) e b.known).0

  receive_first :
      (n : ℕ) (s : BatchState V) (k : Text) (ks : List Text)
      → IsRunning kind s.phase
      → Inv kind all s
      → s.phase ≢ failed
      → s.signals ≡ k ∷ ks
      → left (pump k ks s) < n
      → Later n
      → CanFinish s
  receive_first n s k ks r h f e l later = take_one s (pump k ks s) (receives s k ks r e) (
      later (pump k ks s)
        (record_completion-Inv kind all k (record s { signals = ks })
          (with_signals-Inv kind all ks s h))
        (λ g. f (sym (record_completion-phase kind k (record s { signals = ks })) ∙ g)) l)

  -- A buffered signal, or else one of a child in progress, can be received.
  receive_one :
      (n : ℕ) (s : BatchState V)
      → IsRunning kind s.phase
      → Inv kind all s
      → s.phase ≢ failed
      → 0 < length s.current
      → left s < suc n
      → Later n
      → CanFinish s
  receive_one n s r h f c l later = elim (List-cases s.signals) [
    | inr (k, ks, e) ↦
        receive_first n s k ks r h f e
          (omega (arith, (left-record_completion k (record s { signals = ks })).0, ap length e))
          later
    | inl e ↦ elim (List-cases s.current) [
      | inl g ↦ absurd (omega (arith, ap length g))
      | inr (k, ks, g) ↦
          take_one s (record s { signals = s.signals ++ k ∷ [] })
            (signals s k (known_first s k ks g h.0))
            (receive_first n (record s { signals = s.signals ++ k ∷ [] }) k [] r
              (with_signals-Inv kind all (s.signals ++ k ∷ []) s h) f (ap (λ z. z ++ k ∷ []) e)
              (omega (
                arith,
                l,
                (left-record_completion k (record s { signals = [] })).1
                    (any-first s.current k ks g),
              ))
              later)
    ]
  ]

  room_lem : (a b : ℕ) → ltb a b ≡ false → 0 < b → 0 < a
  room_lem a b h r = ground arith

  start_child-phase :
      (v : V) (page : List V) (s : BatchState V) → (start_child kind v page s).phase ≢ failed
  unfolding start_child
  start_child-phase v page s g = cc

  rank_bound : (p : Phase V) → rank p ≤ 2
  rank_bound (starting []) = omega arith
  rank_bound (starting (v ∷ page)) = omega arith
  rank_bound leaving = omega arith
  rank_bound waiting = omega arith
  rank_bound (completed n) = omega arith
  rank_bound failed = omega arith

  length-add_record : (k : Text) (ks : List Text) → length (add_record k ks) ≤ suc (length ks)
  length-add_record k ks = ground (arith, length-append ks (k ∷ []))

  left-start_child :
      (v : V) (page : List V) (s : BatchState V)
      → s.phase ≡ starting (v ∷ page)
      → left (start_child kind v page s) < left s
  unfolding start_child
  left-start_child v page s e = omega (
    arith,
    left_at (starting (v ∷ page)) s e,
    rank_bound (starting page),
    length-add_record (kind.key v) s.current,
  )

  end_page-phase : (s : BatchState V) → (end_page kind s).phase ≢ failed
  unfolding end_page
  end_page-phase s =
      elim (Bool-cases (ltb (page_end kind.page_size s.offset s.versions) (length s.versions))) [
        | inl f ↦ rw f (λ g. cc)
        | inr f ↦ rw f (λ g. cc)
      ]

  left-end_page : (s : BatchState V) → s.phase ≡ starting [] → left (end_page kind s) < left s
  unfolding end_page
  left-end_page s e =
      elim (Bool-cases (ltb (page_end kind.page_size s.offset s.versions) (length s.versions))) [
        | inl f ↦ rw f (omega (arith, left_at (starting []) s e))
        | inr f ↦ rw f (omega (arith, left_at (starting []) s e))
      ]

  continue_as_new-phase : (s : BatchState V) → (continue_as_new kind s).phase ≢ failed
  unfolding continue_as_new begin
  continue_as_new-phase s g = cc

  rank-starting : (page : List V) → 0 < length page → rank (starting page) ≡ 0
  rank-starting [] h = absurd (omega arith)
  rank-starting (v ∷ page) h = refl

  length-slice :
      (i j : ℕ) (xs : List V) → i < j → 0 < length (drop i xs) → 0 < length (slice i j xs)
  length-slice i j xs h r = omega (arith, length-take (j - i) (drop i xs))

  left-begin :
      (pending children : List Text) (input : BatchInput V)
      → input.offset ≤ length input.versions
      → 0 < length (drop input.offset input.versions)
      → left (begin kind pending children input)
        ≡ 4 * length (drop input.offset input.versions)
          + length input.current_records
          + length pending
  unfolding begin
  left-begin pending children input o r =
      let e = page_end kind.page_size input.offset input.versions in
      let (a, b, c) = page_end_lem kind laws input.offset input.versions o in
      let f = c (omega (arith, r, length-drop input.offset input.versions)) in
      omega (
        arith,
        ap length (slice-drop input.offset e input.versions a),
        rank-starting (slice input.offset e input.versions)
            (length-slice input.offset e input.versions f r),
      )

  left-continue_as_new :
      (s : BatchState V)
      → s.phase ≡ leaving
      → Inv kind all s
      → left (continue_as_new kind s) < left s
  unfolding continue_as_new
  left-continue_as_new s e h =
      let t = drain s.signals s in
      let (c, o, d, r) = accounts_at kind all leaving s e (λ f. cc) h in
      let g = drain-Inv kind all s.signals s h in
      let rest = ap length (laws.keeps_rest t) in
      let rest' = ap length (drain-rest kind s.signals s) in
      omega (
        arith,
        left-begin t.signals t.children (kind.next_input t) (laws.keeps_range t g.0.in_range)
            (omega (arith, r, rest, rest')),
        rest,
        rest',
        left_at leaving s e,
        ap length (laws.keeps_records t),
        length-drain s.signals s,
        ap length (drain-signals s.signals s),
      )

  complete-phase :
      (s : BatchState V) → (complete kind s).phase ≡ completed (drain s.signals s).progress
  unfolding complete
  complete-phase s = refl

  finish_phase :
      (n : ℕ) (s : BatchState V) (p : Phase V)
      → s.phase ≡ p
      → Inv kind all s
      → s.phase ≢ failed
      → left s < suc n
      → Later n
      → CanFinish s
  unfolding CanFinish
  finish_phase n s (starting (v ∷ page)) e h f l later =
      elim (Bool-cases (ltb (length s.current) s.window)) [
        | inl r ↦ take_one s (start_child kind v page s) (fills s v page e r) (
            later (start_child kind v page s) (start_child-Inv kind laws all v page s e r h)
              (start_child-phase v page s) (omega (arith, l, left-start_child v page s e)))
        | inr r ↦
            receive_one n s (rw e tt) h f (room_lem (length s.current) s.window r h.0.has_room) l
              later
      ]
  finish_phase n s (starting []) e h f l later = take_one s (end_page kind s) (ends s e) (
      later (end_page kind s) (end_page-Inv kind laws all s e h) (end_page-phase s)
        (omega (arith, l, left-end_page s e)))
  finish_phase n s leaving e h f l later = take_one s (continue_as_new kind s) (continues s e) (
      later (continue_as_new kind s) (continue_as_new-Inv kind laws all s e h)
        (continue_as_new-phase s) (omega (arith, l, left-continue_as_new s e h)))
  finish_phase n s waiting e h f l later = elim (List-cases s.current) [
    | inl c ↦ (
      complete kind s,
      (drain s.signals s).progress,
      next s (complete kind s) (complete kind s) (completes s e c) (here (complete kind s)),
      complete-phase s,
    )
    | inr (k, ks, c) ↦ receive_one n s (rw e tt) h f (omega (arith, ap length c)) l later
  ]
  finish_phase n s (completed m) e h f l later = (s, m, here s, e)
  finish_phase n s failed e h f l later = absurd (f e)

  can_finish : (n : ℕ) → Later n
  can_finish zero s h f l = absurd (omega arith)
  can_finish (suc n) s h f l = finish_phase n s s.phase refl h f l (can_finish n)

module _ {V : Type 0} (kind : BatchKind V) (laws : BatchLaws kind) where
  -- Whatever a batch of different versions has been through, unless a wait has ended with an error
  -- it can go on to its end, with the number of the versions as its result.
  pub can_complete :
      (versions : List V) (size : ℤ) (t : BatchState V)
      → IsSetOf (map kind.key versions)
      → Reach kind (first_run kind versions size) t
      → t.phase ≢ failed
      → (u : BatchState V) × Reach kind t u × (u.phase ≡ completed (length versions))
  unfolding CanFinish
  can_complete versions size t u path f =
      let all = map kind.key versions in
      let h =
        Reach-Inv kind laws all (first_run kind versions size) t path
          (first_run-Inv kind laws versions size u) in
      let (v, n, path', e) =
        can_finish kind laws all (suc (left kind laws all t)) t h f (omega arith) in
      let (i, o) =
        completed_lem kind laws versions size v n u
          (compose kind (first_run kind versions size) t v path path') e in
      (v, path', e ∙ ap completed i)
