-- ===== src/Operator/Requests/Trace.antt =====
-- A relation between the log before a run and the log after it, which every part of the controller
-- respects that sends nothing but requests.
use nativestor.Prelude.{
  String, ◌≡◌, Bool, true, false, List, [], ◌∷◌, ◌++◌, none, refl, sym, ap, ◌∙◌, if◌then◌else◌,
}
use mathlib.Core.List.{append_assoc}
use nativestor.Errors.{Result, ok, err}
use nativestor.Api.{pure, of_result, attempt, ignore, wrap, request, and_then, ◌>>=◌, ◌>>◌}
use nativestor.Operator.Requests.{
  Event, Server, Control, send, read, keep_cluster, start_lvmd_controller, start_monitor,
  stop_monitor, delete_pod,
}

-- Requests but for the deletion of a pod; the other events change the controller or stop a pod.
abbrev pub is_request : Event → Bool
is_request (keep_cluster c) = false
is_request start_lvmd_controller = false
is_request start_monitor = false
is_request stop_monitor = false
is_request (delete_pod pod) = false
is_request event = true

-- A reflexive and transitive relation of logs that every request preserves.
pub record IsTrace (R : List Event → List Event → Type 0) : Type 0 where
  pub stay : (log : List Event) → R log log
  pub join : (a b c : List Event) → R a b → R b c → R a c
  pub ask : (event : Event) (log : List Event) → is_request event ≡ true → R log (event ∷ log)

module _ {R : List Event → List Event → Type 0} (t : IsTrace R) where
  abbrev pub Respects : {A : Type 0} → Control A → Type 0
  Respects m = (log : List Event) → R log (m log).1

  module _ {A : Type 0} where
    pub pure-Respects : (a : A) → Respects (pure {E = Event} a)
    pure-Respects a log = t.stay log

    pub of_result-Respects : (r : Result A) → Respects (of_result {E = Event} r)
    of_result-Respects r log = t.stay log

    pub read-Respects : (f : List Event → A) → Respects (read f)
    read-Respects f log = t.stay log

    pub attempt-Respects : (m : Control A) → Respects m → Respects (attempt m)
    attempt-Respects m h log = h log

    pub ignore-Respects : (m : Control A) → Respects m → Respects (ignore m)
    ignore-Respects m h log = h log

    pub wrap-Respects : (s : String) (m : Control A) → Respects m → Respects (wrap s m)
    wrap-Respects s m h log = h log

    pub request-Respects :
        (event : Event) (answer : List Event → Result A)
        → is_request event ≡ true
        → Respects (request event answer)
    request-Respects event answer h log = t.ask event log h

    pub if-Respects :
        (b : Bool) (m n : Control A) → Respects m → Respects n → Respects (if b then m else n)
    if-Respects true m n h k = h
    if-Respects false m n h k = k

  module _ {A B : Type 0} (m : Control A) (f : A → Control B) where
    and_then-R :
        (r : Result A) (log : List Event) → ((a : A) → Respects (f a)) → R log (and_then r f log).1
    and_then-R (ok a) log k = k a log
    and_then-R (err e) log k = t.stay log

    pub >>=-Respects : Respects m → ((a : A) → Respects (f a)) → Respects (m >>= f)
    >>=-Respects h k log =
        t.join log (m log).1 (and_then (m log).0 f (m log).1).1 (h log)
          (and_then-R (m log).0 (m log).1 k)

  pub >>-Respects :
      {B : Type 0} (m : Control (Unit {0})) (n : Control B)
      → Respects m
      → Respects n
      → Respects (m >> n)
  >>-Respects m n h k = >>=-Respects m (λ _. n) h (λ _. k)

  pub send-Respects :
      (server : Server) (event : Event) → is_request event ≡ true → Respects (send server event)
  send-Respects server event h log = t.ask event log h

-- Nothing is taken out of a log.
abbrev pub Grows : List Event → List Event → Type 0
Grows log later = (more : List Event) × (later ≡ more ++ log)

pub Grows-IsTrace : IsTrace Grows
Grows-IsTrace = record {
  stay = λ log. ([], refl);
  join = λ a b c (x, p) (y, q). (y ++ x, q ∙ (ap (λ t. y ++ t) p ∙ sym (append_assoc y x a)));
  ask = λ event log h. (event ∷ [], refl);
}

-- An event of a log.
abbrev pub Occurs : Event → List Event → Type 0
Occurs event log = (later : List Event) × (earlier : List Event) × (log ≡ later ++ event ∷ earlier)

pub Occurs-Grows : (event : Event) (a b : List Event) → Occurs event a → Grows a b → Occurs event b
Occurs-Grows event a b (later, earlier, p) (more, q) = (
  more ++ later,
  earlier,
  q ∙ (ap (λ t. more ++ t) p ∙ sym (append_assoc more later (event ∷ earlier))),
)

-- A write of a log to which the API server answered without an error.
abbrev pub Accepted : Server → Event → List Event → Type 0
Accepted server event log =
    (later : List Event) × (earlier : List Event) × (log ≡ later ++ event ∷ earlier)
    × (server.accepts earlier event ≡ none)

pub Accepted-Grows :
    (server : Server) (event : Event) (a b : List Event)
    → Accepted server event a
    → Grows a b
    → Accepted server event b
Accepted-Grows server event a b (later, earlier, p, accepted) (more, q) = (
  more ++ later,
  earlier,
  q ∙ (ap (λ t. more ++ t) p ∙ sym (append_assoc more later (event ∷ earlier))),
  accepted,
)
