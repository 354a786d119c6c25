-- ===== src/Daemon/Scheduling/Advance.antt =====
-- Put on the table of occurrences (internal/store/store.go with its unique index): what each put
-- must respect so that the table stays sound.
use herdr_woof.Prelude.{
  ℕ, ◌≡◌, ◌≢◌, refl, sym, ap, ◌∙◌, subst, true, false, some, none, [], ◌∷◌, ◌==◌, arith, Bool-cases,
  inl, inr,
}
use herdr_woof.Prelude.Result.{ok, refuse_passed}
use herdr_woof.Daemon.Model.{Code, ScheduleRun, OccurrenceKey}
use herdr_woof.Daemon.Store.{Table, find, put, put_row, put_schedule_run, is_claimed, same_key}
use herdr_woof.Daemon.Store.Rows.{some-inj, find-put_row, put_row_cases, put_row-Above, put_lem}
use herdr_woof.Daemon.Occurrences.{is_outstanding}
use herdr_woof.Daemon.Scheduling.{RunEvolves, IsSoundRun, AreSoundRuns, IsRunAdvance, IsUpdate}

pub RunEvolves-refl : (run : ScheduleRun) → RunEvolves run run
RunEvolves-refl run = record {
  same_id = refl;
  same_schedule = refl;
  same_key_as = refl;
  final = λ h. h;
  same_message = λ _. refl;
  same_dispatch = λ _. refl;
  counted = omega arith;
}

pub RunEvolves-trans : (a b c : ScheduleRun) → RunEvolves a b → RunEvolves b c → RunEvolves a c
RunEvolves-trans a b c h k = record {
  same_id = k.same_id ∙ h.same_id;
  same_schedule = k.same_schedule ∙ h.same_schedule;
  same_key_as = k.same_key_as ∙ h.same_key_as;
  final = λ p. k.final (h.final p);
  same_message = λ p. let e = h.same_message p in k.same_message (λ z. p (sym e ∙ z)) ∙ e;
  same_dispatch = λ p. let e = h.same_dispatch p in k.same_dispatch (λ z. p (sym e ∙ z)) ∙ e;
  counted = omega (arith, h.counted, k.counted);
}

pub IsRunAdvance-refl : {rows : Table ScheduleRun} → AreSoundRuns rows → IsRunAdvance rows rows
IsRunAdvance-refl s = record { still_sound = s; kept = λ id run h. (run, h, RunEvolves-refl run) }

pub IsRunAdvance-trans :
    {a b c : Table ScheduleRun} → IsRunAdvance a b → IsRunAdvance b c → IsRunAdvance a c
IsRunAdvance-trans h k = record {
  still_sound = k.still_sound;
  kept = λ id run p.
      let (x, q, r) = h.kept id run p in
      let (y, q', r') = k.kept id x q in (y, q', RunEvolves-trans run x y r r');
}

same_key-sym : (a b : OccurrenceKey) → same_key a b ≡ true → same_key b a ≡ true
same_key-sym a b h = ground arith

-- The index refuses an occurrence beside another one with its key.
other_claim :
    (rows : Table ScheduleRun) (run x : ScheduleRun) (j : ℕ)
    → is_claimed run rows ≡ false
    → find rows j ≡ some x
    → x.schedule_id ≡ run.schedule_id
    → same_key x.occurrence_key run.occurrence_key ≡ true
    → j ≡ run.id
unfolding is_claimed find
other_claim [] run x j h p s k = cc
other_claim ((i, y) ∷ rows) run x j h p s k = ground (arith, other_claim rows run x j, s, k)

pub put_schedule_run_lem :
    (id : ℕ) (run : ScheduleRun) (rows : Table ScheduleRun) {rows' : Table ScheduleRun}
    → put_schedule_run id run rows ≡ ok rows'
    → (id ≢ 0) × (run.id ≡ id) × (is_claimed run rows ≡ false) × (rows' ≡ put_row id run rows)
unfolding put_schedule_run
put_schedule_run_lem id run rows h =
    let (p, q) =
      refuse_passed (is_claimed run rows) Code.occurrence_claimed (put id run.id run rows) h in
    let (a, b, c) = put_lem id run.id run rows q in (a, b, p, c)

-- No other occurrence of the schedule is outstanding.
abbrev pub IsFree : Table ScheduleRun → ℕ → ℕ → Type 0
IsFree rows schedule id =
    (j : ℕ) (x : ScheduleRun)
    → find rows j ≡ some x
    → x.schedule_id ≡ schedule
    → is_outstanding x.state ≡ true
    → j ≡ id

module _ (id : ℕ) (run : ScheduleRun) (rows : Table ScheduleRun) (named : run.id ≡ id)
    (s : AreSoundRuns rows) where
  put_row-AreSoundRuns :
      id ≢ 0
      → is_claimed run rows ≡ false
      → IsSoundRun run
      → (is_outstanding run.state ≡ true → IsFree rows run.schedule_id id)
      → AreSoundRuns (put_row id run rows)
  put_row-AreSoundRuns nonzero unclaimed sound free = record {
    sorted = put_row-Above rows id 0 run (omega (arith, nonzero)) s.sorted;
    named = λ j x h. elim (put_row_cases rows id j run h) [
      | inl (p, q) ↦ ap (λ y. y.id) (sym q) ∙ named ∙ p
      | inr (p, q) ↦ s.named j x q
    ];
    sound = λ j x h. elim (put_row_cases rows id j run h) [
      | inl (p, q) ↦ rw (sym q) sound
      | inr (p, q) ↦ s.sound j x q
    ];
    one_claim = λ i j x y h k sc key. elim (put_row_cases rows id i run h) [
      | inl (p, q) ↦ elim (put_row_cases rows id j run k) [
        | inl (p', q') ↦ sym p ∙ p'
        | inr (p', q') ↦
            let other =
              other_claim rows run y j unclaimed q' (sym sc ∙ ap (λ z. z.schedule_id) (sym q)) (
                same_key-sym run.occurrence_key y.occurrence_key
                  (ap (λ z. same_key z.occurrence_key y.occurrence_key) q ∙ key)) in
            sym p ∙ sym named ∙ sym other
      ]
      | inr (p, q) ↦ elim (put_row_cases rows id j run k) [
        | inl (p', q') ↦
            let other =
              other_claim rows run x i unclaimed q (sc ∙ ap (λ z. z.schedule_id) (sym q'))
                (ap (λ z. same_key x.occurrence_key z.occurrence_key) q' ∙ key) in
            other ∙ named ∙ p'
        | inr (p', q') ↦ s.one_claim i j x y q q' sc key
      ]
    ];
    one_outstanding = λ i j x y h k sc a b. elim (put_row_cases rows id i run h) [
      | inl (p, q) ↦ elim (put_row_cases rows id j run k) [
        | inl (p', q') ↦ sym p ∙ p'
        | inr (p', q') ↦
            let open_run = ap (λ z. is_outstanding z.state) q ∙ a in
            sym p ∙ sym (free open_run j y q' (sym sc ∙ ap (λ z. z.schedule_id) (sym q)) b)
      ]
      | inr (p, q) ↦ elim (put_row_cases rows id j run k) [
        | inl (p', q') ↦
            let open_run = ap (λ z. is_outstanding z.state) q' ∙ b in
            free open_run i x q (sc ∙ ap (λ z. z.schedule_id) (sym q')) a ∙ p'
        | inr (p', q') ↦ s.one_outstanding i j x y q q' sc a b
      ]
    ];
  }

  put_row_kept :
      ((old : ScheduleRun) → find rows id ≡ some old → RunEvolves old run)
      → (j : ℕ) (x : ScheduleRun) → find rows j ≡ some x
      → (y : ScheduleRun) × (find (put_row id run rows) j ≡ some y) × RunEvolves x y
  put_row_kept evolves j x h = elim (Bool-cases (id == j)) [
    | inl p ↦
        let e : id ≡ j = ground arith in
        (run, find-put_row rows id j run ∙ ground arith, evolves x (rw e h))
    | inr p ↦ (x, find-put_row rows id j run ∙ ground arith, RunEvolves-refl x)
  ]

taken :
    (rows : Table ScheduleRun) (i j : ℕ) (run : ScheduleRun)
    → (i == j) ≡ true
    → find rows i ≡ some run
    → find rows j ≡ none
    → ⊥
taken rows i j run p h k =
    let e : i ≡ j = ground arith in
    let stored : find rows j ≡ some run = subst (λ n. find rows n ≡ some run) e h in cc

was_outstanding :
    (old run : ScheduleRun)
    → RunEvolves old run
    → is_outstanding run.state ≡ true
    → is_outstanding old.state ≡ true
was_outstanding old run e h = elim (Bool-cases (is_outstanding old.state)) [
  | inl still ↦ still
  | inr ended ↦ let over = e.final ended in cc
]

-- A put of a changed occurrence over the one that it was.
pub put_changed :
    (run old : ScheduleRun) (rows : Table ScheduleRun) {rows' : Table ScheduleRun}
    → AreSoundRuns rows
    → put_schedule_run run.id run rows ≡ ok rows'
    → find rows run.id ≡ some old
    → IsSoundRun run
    → RunEvolves old run
    → IsRunAdvance rows rows'
put_changed run old rows s h stored sound evolves =
    let (nonzero, named, unclaimed, e) = put_schedule_run_lem run.id run rows h in
    rw e (record {
      still_sound =
          put_row-AreSoundRuns run.id run rows named s nonzero unclaimed sound (λ out j x k sc a.
            s.one_outstanding j run.id x old k stored (sc ∙ evolves.same_schedule) a
              (was_outstanding old run evolves out));
      kept =
          put_row_kept run.id run rows named s
            (λ o k. subst (λ z. RunEvolves z run) (some-inj (sym stored ∙ k)) evolves);
    })

pub IsUpdate-refl : {rows : Table ScheduleRun} → AreSoundRuns rows → IsUpdate rows rows
IsUpdate-refl s = record { advance = IsRunAdvance-refl s; absent = λ j h. h }

pub IsUpdate-trans : {a b c : Table ScheduleRun} → IsUpdate a b → IsUpdate b c → IsUpdate a c
IsUpdate-trans h k = record {
  advance = IsRunAdvance-trans h.advance k.advance;
  absent = λ j p. k.absent j (h.absent j p);
}

pub put_changed-IsUpdate :
    (run old : ScheduleRun) (rows : Table ScheduleRun) {rows' : Table ScheduleRun}
    → AreSoundRuns rows
    → put_schedule_run run.id run rows ≡ ok rows'
    → find rows run.id ≡ some old
    → IsSoundRun run
    → RunEvolves old run
    → IsUpdate rows rows'
put_changed-IsUpdate run old rows s h stored sound evolves =
    let (_, _, _, e) = put_schedule_run_lem run.id run rows h in
    record {
      advance = put_changed run old rows s h stored sound evolves;
      absent = λ j k. rw e (elim (Bool-cases (run.id == j)) [
        | inl p ↦ absurd (taken rows run.id j old p stored k)
        | inr p ↦ find-put_row rows run.id j run ∙ ground arith
      ]);
    }

-- A put of an occurrence under a new id.
pub put_new :
    (run : ScheduleRun) (rows : Table ScheduleRun) {rows' : Table ScheduleRun}
    → AreSoundRuns rows
    → put_schedule_run run.id run rows ≡ ok rows'
    → find rows run.id ≡ none
    → IsSoundRun run
    → (is_outstanding run.state ≡ true → IsFree rows run.schedule_id run.id)
    → IsRunAdvance rows rows'
put_new run rows s h fresh sound free =
    let (nonzero, named, unclaimed, e) = put_schedule_run_lem run.id run rows h in
    rw e (record {
      still_sound = put_row-AreSoundRuns run.id run rows named s nonzero unclaimed sound free;
      kept = put_row_kept run.id run rows named s (λ o k. cc);
    })
