-- ===== src/Daemon/Requests/Replay.antt =====
-- A request that comes again (Handle of internal/daemon/core.go).
use herdr_woof.Prelude.{
  ℕ, ◌≡◌, ◌≢◌, ◌⊎◌, inl, inr, refl, true, sym, ap, ◌∙◌, subst, false, none, some, arith,
}
use herdr_woof.Prelude.Result.{Result, ok, err}
use herdr_woof.Daemon.Model.{Code, Operation, Reply}
use herdr_woof.Daemon.Store.{Db, Table, find, get, put, put_row}
use herdr_woof.Daemon.Store.Rows.{find-put_row}
use herdr_woof.Daemon.Settle.{is_finished, finish_op, with_outcome}
use herdr_woof.Daemon.Dispatch.{is_uncertain}
use herdr_woof.Daemon.Requests.{
  Call, accepted, receipt_result, handle, run_once, conclude, save, reply_of, error_of, state_of,
}

-- A receipt as the end of the request leaves it.
abbrev receipt : Call → Result Code Reply → Operation → Operation
receipt c out o =
    with_outcome (reply_of out) (error_of out)
      (record o { state = state_of out; updated_at = c.now })

find-put : (id : ℕ) (o : Operation) (rows : Table Operation) → find (put_row id o rows) id ≡ some o
find-put id o rows = find-put_row rows id id o ∙ ground arith

receipt_answers :
    (c : Call) (out : Result Code Reply) (o : Operation)
    → o.fingerprint ≡ c.fingerprint
    → receipt_result (receipt c out o) c.fingerprint ≡ out
unfolding receipt_result with_outcome state_of is_uncertain
receipt_answers c (ok r) o h = ground arith
receipt_answers c (err code) o h = ground arith

receipt_fingerprint :
    (c : Call) (out : Result Code Reply) (o : Operation)
    → (receipt c out o).fingerprint ≡ o.fingerprint
unfolding with_outcome
receipt_fingerprint c (ok r) o = refl
receipt_fingerprint c (err code) o = refl

conflicts :
    (o : Operation) (fingerprint : ℕ)
    → fingerprint ≢ o.fingerprint
    → receipt_result o fingerprint ≡ err Code.request_conflict
unfolding receipt_result
conflicts o fingerprint h = ground arith

finish_lem :
    (c : Call) (out : Result Code Reply) (rows : Table Operation) (o : Operation)
    → c.id ≢ 0
    → find rows c.id ≡ some o
    → o.id ≡ c.id
    → is_finished o.state ≡ false
    → finish_op c.now c.id (reply_of out) (error_of out) (state_of out) rows
      ≡ ok (put_row c.id (receipt c out o) rows)
unfolding finish_op get with_outcome put
finish_lem c (ok r) rows o h e named waits = ground (arith, e)
finish_lem c (err code) rows o h e named waits = ground (arith, e)

-- The end of a request whose receipt is still open, and of one that finished its own.
conclude_lem :
    (c : Call) (out : Result Code Reply) (db : Db) (o : Operation)
    → c.id ≢ 0
    → find db.operations c.id ≡ some o
    → o.id ≡ c.id
    → is_finished o.state ≡ false
    → conclude c out db
      ≡ (out, record db { operations = put_row c.id (receipt c out o) db.operations })
unfolding conclude save
conclude_lem c out db o h e named waits =
    let k = finish_lem c out db.operations o h e named waits in ground (arith, k, e)

conclude_finished :
    (c : Call) (out : Result Code Reply) (db : Db) (o : Operation)
    → find db.operations c.id ≡ some o
    → is_finished o.state ≡ true
    → conclude c out db ≡ (out, db)
unfolding conclude
conclude_finished c out db o e over = ground (arith, e)

again_lem :
    (c : Call) (mutate : Db → Result Code Reply × Db) (db : Db) (o : Operation)
    → c.id ≢ 0
    → find db.operations c.id ≡ some o
    → handle c mutate db ≡ (receipt_result o c.fingerprint, db)
unfolding handle
again_lem c mutate db o h e = ground (arith, e)

first_lem :
    (c : Call) (mutate : Db → Result Code Reply × Db) (db : Db)
    → c.id ≢ 0
    → find db.operations c.id ≡ none
    → c.admit ≡ ok tt
    → c.in_flight ≡ false
    → handle c mutate db ≡ run_once c mutate db
unfolding handle
first_lem c mutate db h e a f = ground (arith, e, a, f)

abbrev pub accepted_db : Call → Db → Db
accepted_db c db = record db { operations = put_row c.id (accepted c) db.operations }

run_lem :
    (c : Call) (mutate : Db → Result Code Reply × Db) (db : Db)
    → c.id ≢ 0
    → run_once c mutate db ≡ conclude c (mutate (accepted_db c db)).0 (mutate (accepted_db c db)).1
unfolding run_once accepted put
run_lem c mutate db h = ground arith

-- How a mutation may leave the receipt of its own request: still open, whatever it set on it, or
-- finished with what the mutation answers.
abbrev pub IsLeft : Call → Result Code Reply → Db → Type 0
IsLeft c out db =
    (o : Operation) × (find db.operations c.id ≡ some o)
    × (o.id ≡ c.id)
    × (o.fingerprint ≡ c.fingerprint)
    × ((is_finished o.state ≡ false)
        ⊎ ((is_finished o.state ≡ true) × (receipt_result o c.fingerprint ≡ out)))

-- The receipt at the end of the request, which answers with what the mutation answered.
IsAnswered : Call → Result Code Reply → Result Code Reply × Db → Type 0
IsAnswered c out r =
    (o : Operation) × (find r.1.operations c.id ≡ some o)
    × (o.fingerprint ≡ c.fingerprint)
    × (receipt_result o c.fingerprint ≡ out)
    × (r.0 ≡ out)

conclude-IsAnswered :
    (c : Call) (out : Result Code Reply) (db : Db)
    → c.id ≢ 0
    → IsLeft c out db
    → IsAnswered c out (conclude c out db)
unfolding IsAnswered
conclude-IsAnswered c out db h (o, e, named, payload, inl waits) =
    subst {A = Result Code Reply × Db}
      (λ r.
        (x : Operation) × (find r.1.operations c.id ≡ some x)
        × (x.fingerprint ≡ c.fingerprint)
        × (receipt_result x c.fingerprint ≡ out)
        × (r.0 ≡ out))
      (sym (conclude_lem c out db o h e named waits))
      (
        receipt c out o,
        find-put c.id (receipt c out o) db.operations,
        receipt_fingerprint c out o ∙ payload,
        receipt_answers c out o payload,
        refl,
      )
conclude-IsAnswered c out db h (o, e, named, payload, inr (over, answers)) =
    subst {A = Result Code Reply × Db}
      (λ r.
        (x : Operation) × (find r.1.operations c.id ≡ some x)
        × (x.fingerprint ≡ c.fingerprint)
        × (receipt_result x c.fingerprint ≡ out)
        × (r.0 ≡ out))
      (sym (conclude_finished c out db o e over)) (o, e, payload, answers, refl)

answered_again :
    (c c' : Call) (mutate' : Db → Result Code Reply × Db) (out : Result Code Reply)
    (r : Result Code Reply × Db)
    → c.id ≢ 0
    → c'.id ≡ c.id
    → IsAnswered c out r
    → (c'.fingerprint ≡ c.fingerprint → handle c' mutate' r.1 ≡ (out, r.1))
      × (c'.fingerprint ≢ c.fingerprint → handle c' mutate' r.1 ≡ (err Code.request_conflict, r.1))
unfolding IsAnswered
answered_again c c' mutate' out r h same (o, e, payload, answers, _) =
    let again : handle c' mutate' r.1 ≡ (receipt_result o c'.fingerprint, r.1) =
      again_lem c' mutate' r.1 o (λ z. h (sym same ∙ z)) (ap (find r.1.operations) same ∙ e) in
    (
      λ k. again ∙ ap {A = Result Code Reply} (λ x. (x, r.1)) (ap (receipt_result o) k ∙ answers),
      λ k.
          again
          ∙ ap {A = Result Code Reply} (λ x. (x, r.1))
              (conflicts o c'.fingerprint (λ z. k (z ∙ payload))),
    )

-- A request that is admitted, that nothing knows yet, and whose mutation leaves its receipt open or
-- finishes it with what it answers, is answered with what the mutation answers. When its id comes
-- again with the same payload, whatever the mutation would do now, it gets that answer again and
-- nothing changes; with another payload it is refused as a conflict and nothing changes.
pub handle_again :
    (c c' : Call) (mutate mutate' : Db → Result Code Reply × Db) (db : Db)
    → c.id ≢ 0
    → find db.operations c.id ≡ none
    → c.admit ≡ ok tt
    → c.in_flight ≡ false
    → IsLeft c (mutate (accepted_db c db)).0 (mutate (accepted_db c db)).1
    → c'.id ≡ c.id
    → ((handle c mutate db).0 ≡ (mutate (accepted_db c db)).0)
      × (c'.fingerprint ≡ c.fingerprint
          → handle c' mutate' (handle c mutate db).1
            ≡ ((mutate (accepted_db c db)).0, (handle c mutate db).1))
      × (c'.fingerprint ≢ c.fingerprint
          → handle c' mutate' (handle c mutate db).1
            ≡ (err Code.request_conflict, (handle c mutate db).1))
unfolding IsAnswered
handle_again c c' mutate mutate' db h e a f left same =
    let out = (mutate (accepted_db c db)).0 in
    let db2 = (mutate (accepted_db c db)).1 in
    let first : handle c mutate db ≡ conclude c out db2 =
      first_lem c mutate db h e a f ∙ run_lem c mutate db h in
    let answered : IsAnswered c out (handle c mutate db) =
      subst (IsAnswered c out) (sym first) (conclude-IsAnswered c out db2 h left) in
    let (_, _, _, _, q) = answered in
    let (again, conflict) = answered_again c c' mutate' out (handle c mutate db) h same answered in
    (q, again, conflict)
