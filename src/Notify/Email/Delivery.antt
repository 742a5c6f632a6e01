-- ===== src/Notify/Email/Delivery.antt =====
-- When sendSMTP of internal/notify/email.go succeeds, and which calls it has made then.
use cron_mon.Base.{
  ◌≡◌, refl, ap, inl, inr, ◌↔◌, Bool, true, false, ◌&&◌, ◌||◌, not, Option, none, List, [], ◌∷◌,
  ◌++◌, All, arith, if◌then◌else◌, Bool-cases,
}
use cron_mon.Base.Text.{Text, is_empty}
use cron_mon.Net.{join_host_port}
use cron_mon.Notify.Ip.{Ip}
use cron_mon.Notify.Email.Smtp.{
  EmailConfig, is_loopback, Call, dial, set_deadline, new_client, start_tls, auth, mail, rcpt,
  data_command, write, close_writer, close, Dialogue, call, call_if, closing, envelope,
  authenticated, send_smtp,
}

-- Whether the credentials, if there are any, may be sent.
abbrev pub permitted : (Text → Option Ip) → EmailConfig → Bool
permitted parse_ip cfg = is_empty cfg.user || cfg.tls || is_loopback parse_ip cfg.host

abbrev on : Bool → Call → List Call → List Call
on needed c calls = if needed then c ∷ calls else calls

-- The calls of a delivery, in their order.
abbrev pub script : Bool → EmailConfig → Text → Text → List Call
script deadline cfg to message =
    dial (join_host_port cfg.host cfg.port)
    ∷ on deadline set_deadline (
        new_client
        ∷ on cfg.tls start_tls (
            on (not (is_empty cfg.user)) (auth cfg.user cfg.pass)
              (mail cfg.from ∷ rcpt to ∷ data_command ∷ write message ∷ close_writer ∷ [])))

module _ (fails : Call → Bool) where
  -- A dialogue that succeeds exactly if it is let and none of its calls fails, and has made the
  -- calls then.
  record Performs (may : Bool) (checked calls : List Call) (d : Dialogue) : Type 0 where
    sound : d.1 ≡ none → (may ≡ true) × All (λ c. fails c ≡ false) checked × (d.0 ≡ calls)
    complete : may ≡ true → All (λ c. fails c ≡ false) checked → d ≡ (calls, none)

  done-Performs : Performs true [] [] ([], none)
  done-Performs = record { sound = λ e. (refl, tt, refl); complete = λ m h. refl }

  call-Performs :
      {may : Bool} {checked calls : List Call} (c : Call) (next : Dialogue)
      → Performs may checked calls next
      → Performs may (c ∷ checked) (c ∷ calls) (call fails c next)
  unfolding call
  call-Performs c next p = elim (Bool-cases (fails c)) [
    | inl e ↦ rw e (record { sound = λ h. cc; complete = λ m h. cc })
    | inr e ↦ rw e (record {
      sound = λ h. let s = p.sound h in (s.0, (e, s.1), ap (λ cs. c ∷ cs) s.2);
      complete = λ m h. ap (λ d. (c ∷ d.0, d.1)) (p.complete m h.1);
    })
  ]

  call_if-Performs :
      {may : Bool} {checked calls : List Call} (needed : Bool) (c : Call) (next : Dialogue)
      → Performs may checked calls next
      → Performs may (on needed c checked) (on needed c calls) (call_if fails needed c next)
  unfolding call_if
  call_if-Performs true c next p = call-Performs c next p
  call_if-Performs false c next p = p

  envelope-Performs :
      (from to message : Text)
      → let calls = mail from ∷ rcpt to ∷ data_command ∷ write message ∷ close_writer ∷ [] in
        Performs true calls calls (envelope fails from to message)
  unfolding envelope
  envelope-Performs from to message = call-Performs (mail from) _ (
      call-Performs (rcpt to) _ (
        call-Performs data_command _
          (call-Performs (write message) _ (call-Performs close_writer _ done-Performs))))

  closing-Performs :
      {may : Bool} {checked calls : List Call} (d : Dialogue)
      → Performs may checked calls d
      → Performs may checked (calls ++ close ∷ []) (closing d)
  unfolding closing
  closing-Performs d p = record {
    sound = λ e. let s = p.sound e in (s.0, s.1, ap (λ cs. cs ++ close ∷ []) s.2);
    complete = λ m h. ap closing (p.complete m h);
  }

  module _ (parse_ip : Text → Option Ip) where
    authenticated-Performs :
        {calls : List Call} (cfg : EmailConfig) (next : Dialogue)
        → Performs true calls calls next
        → let all = on (not (is_empty cfg.user)) (auth cfg.user cfg.pass) calls in
          Performs (permitted parse_ip cfg) all all (authenticated fails parse_ip cfg next)
    unfolding authenticated
    authenticated-Performs cfg next p = elim (Bool-cases (is_empty cfg.user)) [
      | inl e ↦ rw e p
      | inr e ↦ elim (Bool-cases (cfg.tls || is_loopback parse_ip cfg.host)) [
        | inl f ↦
            let go : not cfg.tls && not (is_loopback parse_ip cfg.host) ≡ false = ground arith in
            rw (e, go, f) (call-Performs (auth cfg.user cfg.pass) next p)
        | inr f ↦
            let stop : not cfg.tls && not (is_loopback parse_ip cfg.host) ≡ true = ground arith in
            rw (e, stop, f) (record { sound = λ h. cc; complete = λ m h. cc })
      ]
    ]

    -- sendSMTP reports no error exactly if the credentials, if there are any, may be sent over
    -- the connection and no call of the script fails; and then it has made the calls of the
    -- script, each once and in their order, and closed the connection.
    pub send_smtp-delivers :
        (deadline : Bool) (cfg : EmailConfig) (to message : Text)
        → let calls = script deadline cfg to message in
          let d = send_smtp fails parse_ip deadline cfg to message in
          ((d.1 ≡ none) ↔ ((permitted parse_ip cfg ≡ true) × All (λ c. fails c ≡ false) calls))
          × ((d.1 ≡ none) ↔ (d ≡ (calls ++ close ∷ [], none)))
    unfolding send_smtp
    send_smtp-delivers deadline cfg to message =
        let last = envelope-Performs cfg.from to message in
        let p = call-Performs (dial _) _ (
          closing-Performs _ (
            call_if-Performs deadline set_deadline _ (
              call-Performs new_client _
                (call_if-Performs cfg.tls start_tls _ (authenticated-Performs cfg _ last))))) in
        (
          ((λ e. let s = p.sound e in (s.0, s.1)), (λ h. ap (λ d. d.1) (p.complete h.0 h.1))),
          ((λ e. let s = p.sound e in p.complete s.0 s.1), (λ e. ap (λ d. d.1) e)),
        )
