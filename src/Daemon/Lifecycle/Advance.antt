-- ===== src/Daemon/Lifecycle/Advance.antt =====
-- Put on the table of dispatches (internal/store/store.go): what each put must respect so that the
-- table stays sound.
use herdr_woof.Prelude.{
  ℕ, ◌≡◌, ◌≢◌, refl, sym, ap, ◌∙◌, true, false, ◌&&◌, some, [], ◌∷◌, ◌==◌, arith, Bool-cases, inl,
  inr,
}
use herdr_woof.Prelude.Result.{ok, refuse_passed}
use herdr_woof.Daemon.Model.{Code, Dispatch, active_dispatch}
use herdr_woof.Daemon.Store.{Table, find, put, put_row, put_dispatch, has_other_active}
use herdr_woof.Daemon.Store.Rows.{find-put_row, put_row_cases, put_row-Above, put_lem}
use herdr_woof.Daemon.Lifecycle.{Evolves, IsSound, AreSound, IsAdvance}

pub Evolves-refl : (d : Dispatch) → Evolves d d
Evolves-refl d = record {
  same_id = refl;
  same_worker = refl;
  same_baseline = refl;
  final = λ _. (d.nudges, refl);
  same_report = λ _. (refl, refl, refl);
  same_end = λ h. (h, refl);
}

final_active :
    (d e : Dispatch) (n : ℕ)
    → active_dispatch d ≡ false
    → e ≡ record d { nudges = n }
    → active_dispatch e ≡ false
unfolding active_dispatch
final_active d e n h k = ap active_dispatch k ∙ h

pub Evolves-trans : (c d e : Dispatch) → Evolves c d → Evolves d e → Evolves c e
Evolves-trans c d e h k = record {
  same_id = cc;
  same_worker = cc;
  same_baseline = cc;
  final = λ p.
      let (n, q) = h.final p in
      let (m, r) = k.final (final_active c d n p q) in
      (m, r ∙ ap {A = Dispatch} (λ x. record x { nudges = m }) q);
  same_report = λ p.
      let (a, b, t) = h.same_report p in
      let (a', b', t') = k.same_report (λ z. p (sym a ∙ z)) in (a' ∙ a, b' ∙ b, t' ∙ t);
  same_end = λ p. let (a, b) = h.same_end p in let (a', b') = k.same_end a in (a', b' ∙ b);
}

pub IsAdvance-refl : {rows : Table Dispatch} → AreSound rows → IsAdvance rows rows
IsAdvance-refl h = record { still_sound = h; kept = λ id d k. (d, k, Evolves-refl d) }

pub IsAdvance-trans : {a b c : Table Dispatch} → IsAdvance a b → IsAdvance b c → IsAdvance a c
IsAdvance-trans h k = record {
  still_sound = k.still_sound;
  kept = λ id d p.
      let (e, q, r) = h.kept id d p in
      let (f, q', r') = k.kept id e q in (f, q', Evolves-trans d e f r r');
}

-- The index refuses an active dispatch beside another one of its worker.
other_active :
    (rows : Table Dispatch) (d e : Dispatch) (j : ℕ)
    → has_other_active d rows ≡ false
    → find rows j ≡ some e
    → active_dispatch e ≡ true
    → e.worker_id ≡ d.worker_id
    → j ≡ d.id
unfolding has_other_active find
other_active [] d e j h p a w = cc
other_active ((k, x) ∷ rows) d e j h p a w = ground (arith, other_active rows d e j, a, w)

pub put_dispatch_lem :
    (id : ℕ) (d : Dispatch) (rows : Table Dispatch) {rows' : Table Dispatch}
    → put_dispatch id d rows ≡ ok rows'
    → (id ≢ 0)
      × (d.id ≡ id)
      × (active_dispatch d && has_other_active d rows ≡ false)
      × (rows' ≡ put_row id d rows)
unfolding put_dispatch
put_dispatch_lem id d rows h =
    let (p, q) =
      refuse_passed (active_dispatch d && has_other_active d rows) Code.busy_worker
        (put id d.id d rows) h in
    let (a, b, c) = put_lem id d.id d rows q in (a, b, p, c)

module _ (id : ℕ) (d : Dispatch) (rows : Table Dispatch) (named : d.id ≡ id)
    (s : AreSound rows) where
  other_id :
      (j : ℕ) (e : Dispatch)
      → active_dispatch d && has_other_active d rows ≡ false
      → find rows j ≡ some e
      → active_dispatch d ≡ true
      → active_dispatch e ≡ true
      → d.worker_id ≡ e.worker_id
      → id ≡ j
  other_id j e free h a b w =
      let none_other : has_other_active d rows ≡ false = ground arith in
      sym (other_active rows d e j none_other h b (sym w) ∙ named)

  put_row-AreSound :
      id ≢ 0
      → active_dispatch d && has_other_active d rows ≡ false
      → IsSound d
      → AreSound (put_row id d rows)
  put_row-AreSound nonzero free sound = record {
    sorted = put_row-Above rows id 0 d (omega (arith, nonzero)) s.sorted;
    named = λ j x h. elim (put_row_cases rows id j d h) [
      | inl (p, q) ↦ ap (λ y. y.id) (sym q) ∙ named ∙ p
      | inr (p, q) ↦ s.named j x q
    ];
    sound = λ j x h. elim (put_row_cases rows id j d h) [
      | inl (p, q) ↦ rw (sym q) sound
      | inr (p, q) ↦ s.sound j x q
    ];
    one_active = λ i j x y h k a b w. elim (put_row_cases rows id i d h) [
      | inl (p, q) ↦ elim (put_row_cases rows id j d k) [
        | inl (p', q') ↦ sym p ∙ p'
        | inr (p', q') ↦
            sym p ∙ other_id j y free q' (ap active_dispatch q ∙ a) b (ap (λ z. z.worker_id) q ∙ w)
      ]
      | inr (p, q) ↦ elim (put_row_cases rows id j d k) [
        | inl (p', q') ↦
            let back = ap (λ z. z.worker_id) q' ∙ sym w in
            sym (other_id i x free q (ap active_dispatch q' ∙ b) a back) ∙ p'
        | inr (p', q') ↦ s.one_active i j x y q q' a b w
      ]
    ];
  }

  put_row_kept :
      ((old : Dispatch) → find rows id ≡ some old → Evolves old d)
      → (j : ℕ) (x : Dispatch) → find rows j ≡ some x
      → (y : Dispatch) × (find (put_row id d rows) j ≡ some y) × Evolves x y
  put_row_kept evolves j x h = elim (Bool-cases (id == j)) [
    | inl p ↦
        let e : id ≡ j = ground arith in
        (d, find-put_row rows id j d ∙ ground arith, evolves x (rw e h))
    | inr p ↦ (x, find-put_row rows id j d ∙ ground arith, Evolves-refl x)
  ]

-- A put of a sound dispatch, over one that may change to it or under a new id.
pub put_dispatch-IsAdvance :
    (id : ℕ) (d : Dispatch) (rows : Table Dispatch) {rows' : Table Dispatch}
    → AreSound rows
    → put_dispatch id d rows ≡ ok rows'
    → IsSound d
    → ((old : Dispatch) → find rows id ≡ some old → Evolves old d)
    → IsAdvance rows rows'
put_dispatch-IsAdvance id d rows s h sound evolves =
    let (nonzero, named, free, e) = put_dispatch_lem id d rows h in
    rw e (record {
      still_sound = put_row-AreSound id d rows named s nonzero free sound;
      kept = put_row_kept id d rows named s evolves;
    })
