-- ===== src/Delivery/Settled.antt =====
-- That what a caller asked for reaches the air conditioner, whatever the order of the dispatch
-- code's statements.
use shirokumakun_matter.Common.{◌≡◌, refl, some, none}
use shirokumakun_matter.IrProtocol.{AcState}
use shirokumakun_matter.IrProtocol.Receiver.{receive}
use shirokumakun_matter.IrProtocol.RoundTrip.{sent_mode}
use shirokumakun_matter.IrDriver.Dispatch.{Store, Section, unlocked, Thread, waiting}
use shirokumakun_matter.IrDriver.Dispatch.History.{newest}
use shirokumakun_matter.IrDriver.Dispatch.Progress.{Next, Settles, at_rest, onward, Reach-Settles}
use shirokumakun_matter.ZclCallbacks.{Attributes, Zcl}
use shirokumakun_matter.ZclCallbacks.Send.{IsValid}
use shirokumakun_matter.Delivery.{Caller, System, dispatch, Reachable, next}
use shirokumakun_matter.Delivery.Kept.{Reachable-Kept}
use shirokumakun_matter.Delivery.Rest.{IsAtRest, meant, rest-receive}

-- The system with another state of the dispatch code.
abbrev pub with_dispatch : System → Store → Section → Thread → System
with_dispatch s m c t = record s { store = m; section = c; thread = t }

-- Every sequence of statements of the dispatch code is finite, and ends only at rest, with a last
-- command that says what `meaning` does.
pub data Delivers (meaning : AcState) (s : System) : Store → Section → Thread → Type 0 where
  delivered :
      {m : Store} {c : Section} {t : Thread}
      → IsAtRest (with_dispatch s m c t)
      → receive (newest m.sent) ≡ some (record meaning { mode = sent_mode meaning })
      → Delivers meaning s m c t
  goes_on :
      {m : Store} {c : Section} {t : Thread}
      → Next m c t
      → ((n : Next m c t) → Delivers meaning s n.store n.section n.thread)
      → Delivers meaning s m c t

Settles-Delivers :
    {a : Attributes} {z : Zcl} (s : System) (caller : Caller) {m : Store} {c : Section} {t : Thread}
    → IsValid z
    → s.matter_call ≡ none
    → s.last_caller ≡ some caller
    → Reachable a z (with_dispatch s m c t)
    → Settles m c t
    → Delivers (meant caller s.zcl) s m c t
Settles-Delivers s caller v free called r (at_rest {m = m} quiet) =
    let rests : IsAtRest (with_dispatch s m unlocked waiting) = record {
      no_call = free;
      free = refl;
      waits = refl;
      quiet = quiet;
    } in
    delivered rests (rest-receive v r rests caller called)
Settles-Delivers s caller v free called r (onward n settles) = goes_on n (λ n'.
    Settles-Delivers s caller v free called (next r (dispatch n'.step n'.inner)) (settles n'))

-- In every state that the callbacks, `ac off`, their calls and the dispatch thread reach, once the
-- Matter thread is about to make no call: if no further call enters `ir_dispatch_command`, every
-- sequence of statements of the dispatch code is finite, and it ends only at rest, with a last
-- command from which the air conditioner reads what the last caller meant.
pub Reachable-Delivers :
    {a : Attributes} {z : Zcl} {s : System}
    → IsValid z
    → Reachable a z s
    → s.matter_call ≡ none
    → (caller : Caller) → s.last_caller ≡ some caller
    → Delivers (meant caller s.zcl) s s.store s.section s.thread
Reachable-Delivers {s = s} v r free caller called =
    Settles-Delivers s caller v free called r (Reach-Settles (Reachable-Kept v r).reach)
