-- ===== src/Workflow/Batch/Reachable.antt =====
-- Every step of a batch keeps the invariant.
use mathlib.Core.List.{append-nil, append_assoc}
use system_of_adownload.Prelude.{
  All, All-append, All-map, Bool-cases, List, Text, [], ap, arith, drop, inl, inr, length,
  length-append, length-drop, length-map, ltb, map, negsuc, pos, refl, suc, sym, tests, text_eq,
  text_eq_refl, true, zero, ℕ, ℤ, ◌++◌, ◌+◌, ◌<◌, ◌∙◌, ◌∷◌, ◌≡◌, ◌≤◌,
}
use system_of_adownload.Prelude.Rows.{any, any-append}
use system_of_adownload.Workflow.Batch.{
  BatchInput, starting, leaving, waiting, completed, BatchState, drain, drain_completion_signals,
  page_end, BatchKind, window_of, begin, start_child, end_page, continue_as_new, complete, Step,
  fills, ends, continues, breaks, completes, signals, receives, Reach, here, next,
}
use system_of_adownload.Workflow.Batch.Invariant.{
  BatchLaws, drop_past, slice-drop, Inv, page_end_lem, record_completion-Inv, with_signals-Inv,
  drain-phase, drain-current, drain-Inv, accounts_at, failed-Inv,
}
use system_of_adownload.Workflow.Batch.Sets.{IsSetOf, IsSetOf-fresh}

module _ {V : Type 0} (kind : BatchKind V) (laws : BatchLaws kind) (all : List Text) where
  begin-Inv :
      (pending children : List Text) (input : BatchInput V)
      → 0 < window_of kind input.window_size
      → length input.current_records ≤ window_of kind input.window_size
      → input.offset ≤ length input.versions
      → All (λ k. any (text_eq k) children ≡ true) input.current_records
      → input.progress + length input.current_records + length (drop input.offset input.versions)
        ≡ length all
      → children ++ map kind.key (drop input.offset input.versions) ≡ all
      → IsSetOf (input.current_records ++ map kind.key (drop input.offset input.versions))
      → Inv kind all (begin kind pending children input)
  unfolding begin
  begin-Inv pending children input w r o k c i d =
      let e =
        slice-drop input.offset (page_end kind.page_size input.offset input.versions) input.versions
          (page_end_lem kind laws input.offset input.versions o).0 in
      (
        record { has_room = w; in_window = r; in_range = o; known = k },
        inr (record { counts = rw e c; in_order = rw e i; distinct = rw e d; counted = tt }),
      )

  known_append :
      (k : Text) (children ks : List Text)
      → All (λ j. any (text_eq j) children ≡ true) ks
      → All (λ j. any (text_eq j) (children ++ k ∷ []) ≡ true) ks
  known_append k children ks h =
      All-map (λ j e. any-append (text_eq j) children (k ∷ []) ∙ rw e refl) ks h

  any_last : (k : Text) (ks : List Text) → any (text_eq k) (ks ++ k ∷ []) ≡ true
  unfolding any
  any_last k ks = ground (arith, any-append (text_eq k) ks (k ∷ []), text_eq_refl k)

  length-last : (k : Text) (ks : List Text) → length (ks ++ k ∷ []) ≡ suc (length ks)
  length-last k ks = omega (arith, length-append ks (k ∷ []))

  pub start_child-Inv :
      (v : V) (page : List V) (s : BatchState V)
      → s.phase ≡ starting (v ∷ page)
      → ltb (length s.current) s.window ≡ true
      → Inv kind all s
      → Inv kind all (start_child kind v page s)
  unfolding start_child
  start_child-Inv v page s e r h =
      let (c, o, d, t) = accounts_at kind all (starting (v ∷ page)) s e (λ f. cc) h in
      let b = h.0 in
      rw
        (IsSetOf-fresh (kind.key v) s.current
          (map kind.key (page ++ drop (page_end kind.page_size s.offset s.versions) s.versions)) d)
        (
          record {
            has_room = b.has_room;
            in_window = omega (tests, r, length-last (kind.key v) s.current);
            in_range = b.in_range;
            known =
                All-append (λ j. any (text_eq j) (s.children ++ kind.key v ∷ []) ≡ true) s.current
                  (kind.key v ∷ []) (known_append (kind.key v) s.children s.current b.known)
                  (any_last (kind.key v) s.children, tt);
          },
          inr (record {
            counts = omega (arith, c, length-last (kind.key v) s.current);
            in_order =
                rw
                  (append_assoc s.children (kind.key v ∷ []) (
                    map kind.key
                      (page ++ drop (page_end kind.page_size s.offset s.versions) s.versions)))
                  o;
            distinct =
                rw
                  (append_assoc s.current (kind.key v ∷ []) (
                    map kind.key
                      (page ++ drop (page_end kind.page_size s.offset s.versions) s.versions)))
                  d;
            counted = tt;
          }),
        )

  pub end_page-Inv :
      (s : BatchState V) → s.phase ≡ starting [] → Inv kind all s → Inv kind all (end_page kind s)
  unfolding end_page
  end_page-Inv s e h =
      let (c, o, d, t) = accounts_at kind all (starting []) s e (λ f. cc) h in
      let b = h.0 in
      elim (Bool-cases (ltb (page_end kind.page_size s.offset s.versions) (length s.versions))) [
        | inl f ↦ rw f (
          record {
            has_room = b.has_room;
            in_window = b.in_window;
            in_range = (page_end_lem kind laws s.offset s.versions b.in_range).1;
            known = b.known;
          },
          inr (record {
            counts = c;
            in_order = o;
            distinct = d;
            counted =
                omega
                  (tests, f, length-drop (page_end kind.page_size s.offset s.versions) s.versions);
          }),
        )
        | inr f ↦ rw f (
          record {
            has_room = b.has_room;
            in_window = b.in_window;
            in_range = (page_end_lem kind laws s.offset s.versions b.in_range).1;
            known = b.known;
          },
          inr (record {
            counts = c;
            in_order = o;
            distinct = d;
            counted =
                drop_past (page_end kind.page_size s.offset s.versions) s.versions
                  (ground (arith, f));
          }),
        )
      ]

  window_positive : (n : ℕ) → 0 < n → window_of kind (pos n) ≡ n
  window_positive zero h = absurd (omega arith)
  window_positive (suc n) h = refl

  window_keeps :
      (s : BatchState V) → 0 < s.window → window_of kind (kind.next_input s).window_size ≡ s.window
  window_keeps s h = ap (window_of kind) (laws.keeps_window s) ∙ window_positive s.window h

  pub continue_as_new-Inv :
      (s : BatchState V)
      → s.phase ≡ leaving
      → Inv kind all s
      → Inv kind all (continue_as_new kind s)
  unfolding continue_as_new
  continue_as_new-Inv s e h =
      let t = drain_completion_signals s in
      let g = drain-Inv kind all s.signals s h in
      let (c, o, d, u) =
        accounts_at kind all leaving t (drain-phase kind s.signals s ∙ e) (λ f. cc) g in
      let w = window_keeps t g.0.has_room in
      begin-Inv t.signals t.children (kind.next_input t) (rw w g.0.has_room)
        (rw (w, laws.keeps_records t) g.0.in_window) (laws.keeps_range t g.0.in_range)
        (rw (laws.keeps_records t) g.0.known)
        (rw (laws.keeps_progress t, laws.keeps_records t, laws.keeps_rest t) c)
        (rw (laws.keeps_rest t) o) (rw (laws.keeps_records t, laws.keeps_rest t) d)

  pub complete-Inv :
      (s : BatchState V)
      → s.phase ≡ waiting
      → s.current ≡ []
      → Inv kind all s
      → Inv kind all (complete kind s)
  unfolding complete
  complete-Inv s e c h =
      let g = drain-Inv kind all s.signals s h in
      let (c', o, d, t) =
        accounts_at kind all waiting (drain s.signals s) (drain-phase kind s.signals s ∙ e)
          (λ f. cc) g in
      let b = g.0 in
      (
        record {
          has_room = b.has_room;
          in_window = b.in_window;
          in_range = b.in_range;
          known = b.known;
        },
        inr (record {
          counts = omega (arith, c', ap length t);
          in_order = sym (ap (λ r. (drain s.signals s).children ++ map kind.key r) t) ∙ o;
          distinct = rw (drain-current kind s.signals s c) tt;
          counted = omega (arith, c', ap length t, ap length (drain-current kind s.signals s c));
        }),
      )

  pub Step-Inv : (s t : BatchState V) → Step kind s t → Inv kind all s → Inv kind all t
  Step-Inv s t (fills _ v page e r) h = start_child-Inv v page s e r h
  Step-Inv s t (ends _ e) h = end_page-Inv s e h
  Step-Inv s t (continues _ e) h = continue_as_new-Inv s e h
  Step-Inv s t (breaks _ r) h = failed-Inv kind all s h
  Step-Inv s t (completes _ e c) h = complete-Inv s e c h
  Step-Inv s t (signals _ k r) h = with_signals-Inv kind all (s.signals ++ k ∷ []) s h
  Step-Inv s t (receives _ k ks r e) h =
      record_completion-Inv kind all k (record s { signals = ks })
        (with_signals-Inv kind all ks s h)

  pub Reach-Inv : (s t : BatchState V) → Reach kind s t → Inv kind all s → Inv kind all t
  Reach-Inv s t (here _) h = h
  Reach-Inv s t (next _ u _ step path) h = Reach-Inv u t path (Step-Inv s u step h)

module _ {V : Type 0} (kind : BatchKind V) where
  pub compose : (s t u : BatchState V) → Reach kind s t → Reach kind t u → Reach kind s u
  compose s t u (here _) q = q
  compose s t u (next _ v _ step p) q = next s v u step (compose v t u p q)

  -- The input of the first run of a batch.
  abbrev first_input : List V → ℤ → BatchInput V
  first_input versions size = record {
    versions = versions;
    window_size = size;
    offset = 0;
    progress = 0;
    current_records = [];
  }

  abbrev pub first_run : List V → ℤ → BatchState V
  first_run versions size = begin kind [] [] (first_input versions size)

module _ {V : Type 0} (kind : BatchKind V) (laws : BatchLaws kind) where
  window_of-positive : (size : ℤ) → 0 < window_of kind size
  window_of-positive (pos zero) = laws.has_window
  window_of-positive (pos (suc n)) = omega arith
  window_of-positive (negsuc n) = laws.has_window

  pub first_run-Inv :
      (versions : List V) (size : ℤ)
      → IsSetOf (map kind.key versions)
      → Inv kind (map kind.key versions) (first_run kind versions size)
  first_run-Inv versions size u =
      begin-Inv kind laws (map kind.key versions) [] [] (first_input kind versions size)
        (window_of-positive size) (omega arith) (omega arith) tt
        (omega (arith, length-map versions kind.key)) refl u

  -- In every run of a batch, of whatever window, the versions in progress are never more than the
  -- window has room for; the versions of a page are cut out within the list.
  pub current_bounded :
      (versions : List V) (size : ℤ) (t : BatchState V)
      → IsSetOf (map kind.key versions)
      → Reach kind (first_run kind versions size) t
      → (length t.current ≤ t.window) × (t.offset ≤ length t.versions)
  current_bounded versions size t u path =
      let (b, a) =
        Reach-Inv kind laws (map kind.key versions) (first_run kind versions size) t path
          (first_run-Inv versions size u) in
      (b.in_window, b.in_range)

  -- Whenever a batch of different versions ends with a result, over however many runs, with signals
  -- late or repeated, the result is the number of the versions, and each version has been started
  -- exactly once, in the order of the list.
  pub completed_lem :
      (versions : List V) (size : ℤ) (t : BatchState V) (n : ℕ)
      → IsSetOf (map kind.key versions)
      → Reach kind (first_run kind versions size) t
      → t.phase ≡ completed n
      → (n ≡ length versions) × (t.children ≡ map kind.key versions)
  completed_lem versions size t n u path e =
      let (c, o, d, r) =
        accounts_at kind (map kind.key versions) (completed n) t e (λ f. cc)
          (Reach-Inv kind laws (map kind.key versions) (first_run kind versions size) t path
            (first_run-Inv versions size u)) in
      (r ∙ length-map versions kind.key, sym (append-nil t.children) ∙ o)
