-- ===== src/Daemon/Hub/Stream.antt =====
-- What a subscriber of internal/daemon/hub.go reads: the events from its start on, without a gap.
use herdr_woof.Prelude.{
  ◌+◌, ◌≤◌, ◌≡◌, refl, sym, ap, ◌∙◌, subst, true, false, List, [], ◌∷◌, ◌++◌, ltb, length, arith,
  if◌then◌else◌, Bool-cases, inl, inr, append_assoc, append_nil, length-append,
}
use herdr_woof.Daemon.Model.{Event}
use herdr_woof.Daemon.Hub.{Channel, capacity, subscribe, close, offer, publish_to}

-- A life of one channel, between its reader and the hub: what was published since the subscription,
-- what was read, and the channel.
pub data Feeds : List Event → List Event → Channel → Type 0 where
  start : Feeds [] [] subscribe
  published :
      {p r : List Event} {ch : Channel} (es : List Event)
      → Feeds p r ch
      → Feeds (p ++ es) r (publish_to es ch)
  read :
      {p r : List Event} {ch : Channel} (e : Event) (rest : List Event)
      → Feeds p r ch
      → ch.queue ≡ e ∷ rest
      → Feeds p (r ++ e ∷ []) (record ch { queue = rest })
  left : {p r : List Event} {ch : Channel} → Feeds p r ch → Feeds p r (close ch)

-- What an open channel has of the events `es` on top of its queue.
abbrev HasTaken : List Event → List Event → Channel → Type 0
HasTaken queue es ch =
    (lost : List Event) × (queue ++ es ≡ ch.queue ++ lost)
    × (ch.is_open ≡ true → lost ≡ [])
    × (length ch.queue ≤ capacity)

offer-HasTaken :
    (queue es : List Event) → length queue ≤ capacity → HasTaken queue es (offer queue es)
unfolding offer
offer-HasTaken queue [] h = ([], refl, λ _. refl, h)
offer-HasTaken queue (e ∷ es) h =
    let full_or : Channel = record { queue = queue; is_open = false } in
    elim (Bool-cases (ltb (length queue) capacity)) [
      | inl room ↦
          let n : length (queue ++ e ∷ []) ≡ length queue + 1 = length-append queue (e ∷ []) in
          let (lost, p, q, r) = offer-HasTaken (queue ++ e ∷ []) es (ground arith) in
          let taken : HasTaken queue (e ∷ es) (offer (queue ++ e ∷ []) es) =
            (lost, sym (append_assoc queue (e ∷ []) es) ∙ p, q, r) in
          subst (HasTaken queue (e ∷ es))
            (sym (ap (λ b. if b then offer (queue ++ e ∷ []) es else full_or) room)) taken
      | inr full ↦
          let taken : HasTaken queue (e ∷ es) full_or =
            (e ∷ es, refl, λ h. (let never : false ≡ true = h in cc), h) in
          subst (HasTaken queue (e ∷ es))
            (sym (ap (λ b. if b then offer (queue ++ e ∷ []) es else full_or) full)) taken
    ]

-- What the reader and its channel have of what was published.
abbrev pub IsPrefix : List Event → List Event → Channel → Type 0
IsPrefix p r ch =
    (lost : List Event) × (p ≡ r ++ (ch.queue ++ lost))
    × (ch.is_open ≡ true → lost ≡ [])
    × (length ch.queue ≤ capacity)

published-IsPrefix :
    (p r es : List Event) (ch : Channel) → IsPrefix p r ch → IsPrefix (p ++ es) r (publish_to es ch)
unfolding publish_to
published-IsPrefix p r es ch (lost, e, none_lost, short) = elim (Bool-cases ch.is_open) [
  | inl still ↦
      let (lost', e', none', short') = offer-HasTaken ch.queue es short in
      let all : p ≡ r ++ ch.queue =
        e
        ∙ ap (λ l. r ++ (ch.queue ++ l)) (none_lost still)
        ∙ ap (λ l. r ++ l) (append_nil ch.queue) in
      subst (IsPrefix (p ++ es) r) (sym (ap (λ b. if b then offer ch.queue es else ch) still)) (
        lost',
        ap (λ l. l ++ es) all ∙ append_assoc r ch.queue es ∙ ap (λ l. r ++ l) e',
        none',
        short',
      )
  | inr over ↦
      subst (IsPrefix (p ++ es) r) (sym (ap (λ b. if b then offer ch.queue es else ch) over)) (
        lost ++ es,
        ap (λ l. l ++ es) e
            ∙ append_assoc r (ch.queue ++ lost) es
            ∙ ap (λ l. r ++ l) (append_assoc ch.queue lost es),
        λ k. (let never : false ≡ true = sym over ∙ k in cc),
        short,
      )
]

-- Over any reads and publications, what was published since the subscription begins with what the
-- subscriber has read and then what waits in its channel, which is within its capacity of 256; and
-- while the channel is open nothing was left out.
pub feeds-IsPrefix : (p r : List Event) (ch : Channel) → Feeds p r ch → IsPrefix p r ch
feeds-IsPrefix p r ch start = ([], refl, λ _. refl, omega arith)
feeds-IsPrefix p r ch (published {p = p0} {ch = ch0} es f) =
    published-IsPrefix p0 r es ch0 (feeds-IsPrefix p0 r ch0 f)
feeds-IsPrefix p r ch (read {r = r0} {ch = ch0} e rest f h) =
    let (lost, k, none_lost, short) = feeds-IsPrefix p r0 ch0 f in
    (
      lost,
      k ∙ ap (λ l. r0 ++ (l ++ lost)) h ∙ sym (append_assoc r0 (e ∷ []) (rest ++ lost)),
      none_lost,
      omega (arith, short, ap length h),
    )
feeds-IsPrefix p r ch (left {ch = ch0} f) =
    let (lost, k, none_lost, short) = feeds-IsPrefix p r ch0 f in
    (lost, k, λ q. (let never : false ≡ true = q in cc), short)
