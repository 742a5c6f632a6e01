-- ===== src/Alerts/Capacity.antt =====
-- What the non-blocking sends of the alert channel keep and what they drop.
use mathlib.Core.List.{append-nil, append_assoc}
use cron_mon.Base.{
  ℕ, zero, suc, ◌-◌, ◌≤◌, ◌≡◌, refl, ap, sym, ◌∙◌, inl, inr, List, [], ◌∷◌, ◌++◌, map, arith,
  length, take, length-append, ltb, Bool-cases,
}
use cron_mon.Model.{Check, Channel, AlertType, AlertEvent}
use cron_mon.Alerts.{AlertChannel, try_send, alert_event, send_all}

abbrev pub Fits : AlertChannel → Type 0
Fits ch = length ch.queue ≤ ch.capacity

try_send-Fits : (event : AlertEvent) (ch : AlertChannel) → Fits ch → Fits (try_send event ch)
unfolding try_send
try_send-Fits event ch h = ground (arith, length-append ch.queue (event ∷ []))

capacity-try_send :
    (event : AlertEvent) (ch : AlertChannel) → (try_send event ch).capacity ≡ ch.capacity
unfolding try_send
capacity-try_send event ch = ground arith

-- A row of non-blocking sends.
unfoldable pub send_events : List AlertEvent → AlertChannel → AlertChannel
send_events [] ch = ch
send_events (event ∷ events) ch = send_events events (try_send event ch)

pub send_all-eq-send_events :
    (check : Check) (type : AlertType) (channels : List Channel) (ch : AlertChannel)
    → send_all check type channels ch ≡ send_events (map (alert_event check type) channels) ch
unfolding send_all send_events
send_all-eq-send_events check type [] ch = refl
send_all-eq-send_events check type (c ∷ cs) ch =
    send_all-eq-send_events check type cs (try_send (alert_event check type c) ch)

pub send_events-append :
    (xs ys : List AlertEvent) (ch : AlertChannel)
    → send_events (xs ++ ys) ch ≡ send_events ys (send_events xs ch)
unfolding send_events
send_events-append [] ys ch = refl
send_events-append (x ∷ xs) ys ch = send_events-append xs ys (try_send x ch)

pub capacity-send_events :
    (events : List AlertEvent) (ch : AlertChannel) → (send_events events ch).capacity ≡ ch.capacity
unfolding send_events
capacity-send_events [] ch = refl
capacity-send_events (e ∷ es) ch = capacity-send_events es (try_send e ch) ∙ capacity-try_send e ch

pub send_events-Fits :
    (events : List AlertEvent) (ch : AlertChannel) → Fits ch → Fits (send_events events ch)
unfolding send_events
send_events-Fits [] ch h = h
send_events-Fits (e ∷ es) ch h = send_events-Fits es (try_send e ch) (try_send-Fits e ch h)

take_nil {ℓ} : {A : Type ℓ} (n : ℕ) → take {A = A} n [] ≡ []
take_nil zero = refl
take_nil (suc n) = refl

take_room {ℓ} :
    {A : Type ℓ} (n m : ℕ) (x : A) (xs : List A) → n ≡ suc m → take n (x ∷ xs) ≡ x ∷ take m xs
take_room n m x xs e = rw e

take_full {ℓ} : {A : Type ℓ} (n : ℕ) (xs : List A) → n ≡ 0 → take n xs ≡ []
take_full n xs e = rw e

-- As many events as there is room for join the queue, in order; the rest is dropped.
pub queue-send_events :
    (events : List AlertEvent) (ch : AlertChannel)
    → (send_events events ch).queue ≡ ch.queue ++ take (ch.capacity - length ch.queue) events
unfolding send_events try_send
queue-send_events [] ch = rw (take_nil (ch.capacity - length ch.queue), append-nil)
queue-send_events (event ∷ events) ch =
    let q = ch.queue in
    let q' = q ++ event ∷ [] in
    elim (Bool-cases (ltb (length q) ch.capacity)) [
      | inl room ↦
          queue-send_events events (try_send event ch)
          ∙ rw (room, try_send)
              (append_assoc q (event ∷ []) (take (ch.capacity - length q') events)
                ∙ ap (λ t. q ++ t)
                    (sym (
                      take_room (ch.capacity - length q) (ch.capacity - length q') event events
                        (ground (arith, length-append q (event ∷ []))))))
      | inr full ↦
          queue-send_events events (try_send event ch)
          ∙ rw (full, try_send)
              (ap (λ t. q ++ t)
                (take_full (ch.capacity - length q) events (ground arith)
                  ∙ sym (take_full (ch.capacity - length q) (event ∷ events) (ground arith))))
    ]
