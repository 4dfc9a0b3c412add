-- ===== src/Execution/Lifecycle.antt =====
-- runner.py, `_execute`: the lifecycle events of a run, and what it leaves to be answered.
use fastapi_agent_protocol.Base.{
  String, ◌≡◌, refl, ap, ◌∙◌, Bool, true, false, Option, none, some, List, [], ◌∷◌, ◌++◌, map,
  append-nil, if◌then◌else◌, Bool-cases, inl, inr,
}
use fastapi_agent_protocol.Failure.{is_exception, Result, ok, err}
use fastapi_agent_protocol.Value.{Value, Fields, end, field, str, truthy}
use fastapi_agent_protocol.Emitter.{Frame}
use fastapi_agent_protocol.Translation.{Translator, feed, finish_chunk}
use fastapi_agent_protocol.Serialize.{serialize_values}
use fastapi_agent_protocol.Execution.{
  StreamItem, messages, values, other_mode, Ending, Output, lifecycle, message, state, requested,
  lifecycle_data, failure_text, Progress, Outcome, translated, requests, take_item, take_items,
  result_of, conclude, begun, execute, finish_messages,
}

-- The `lifecycle` events among the outputs, and the interrupts that are asked for.
abbrev pub lifecycles : List Output → List Fields
lifecycles [] = []
lifecycles (lifecycle fs ∷ rest) = fs ∷ lifecycles rest
lifecycles (message frame ∷ rest) = lifecycles rest
lifecycles (state fs ∷ rest) = lifecycles rest
lifecycles (requested id payload ∷ rest) = lifecycles rest

abbrev pub requested_in : List Output → List (String × Value)
requested_in [] = []
requested_in (lifecycle fs ∷ rest) = requested_in rest
requested_in (message frame ∷ rest) = requested_in rest
requested_in (state fs ∷ rest) = requested_in rest
requested_in (requested id payload ∷ rest) = (id, payload) ∷ requested_in rest

lifecycles-append : (xs ys : List Output) → lifecycles (xs ++ ys) ≡ lifecycles xs ++ lifecycles ys
lifecycles-append [] ys = refl
lifecycles-append (lifecycle fs ∷ xs) ys = ap (λ r. fs ∷ r) (lifecycles-append xs ys)
lifecycles-append (message frame ∷ xs) ys = lifecycles-append xs ys
lifecycles-append (state fs ∷ xs) ys = lifecycles-append xs ys
lifecycles-append (requested id payload ∷ xs) ys = lifecycles-append xs ys

requested_in-append :
    (xs ys : List Output) → requested_in (xs ++ ys) ≡ requested_in xs ++ requested_in ys
requested_in-append [] ys = refl
requested_in-append (lifecycle fs ∷ xs) ys = requested_in-append xs ys
requested_in-append (message frame ∷ xs) ys = requested_in-append xs ys
requested_in-append (state fs ∷ xs) ys = requested_in-append xs ys
requested_in-append (requested id payload ∷ xs) ys =
    ap (λ r. (id, payload) ∷ r) (requested_in-append xs ys)

-- Outputs that neither are lifecycle events nor ask for anything.
abbrev Quiet : List Output → List Output → Type 0
Quiet xs ys = (lifecycles ys ≡ lifecycles xs) × (requested_in ys ≡ requested_in xs)

frames-Quiet : (xs : List Output) (frames : List Frame) → Quiet xs (xs ++ map message frames)
frames-Quiet xs frames = (
  lifecycles-append xs (map message frames)
      ∙ ap (λ r. lifecycles xs ++ r) (none_of frames)
      ∙ append-nil _,
  requested_in-append xs (map message frames)
      ∙ ap (λ r. requested_in xs ++ r) (none_in frames)
      ∙ append-nil _,
)
  where
    none_of : (frames : List Frame) → lifecycles (map message frames) ≡ []
    none_of [] = refl
    none_of (frame ∷ rest) = none_of rest

    none_in : (frames : List Frame) → requested_in (map message frames) ≡ []
    none_in [] = refl
    none_in (frame ∷ rest) = none_in rest

translated-Quiet : (p : Progress) (t : Translator) → Quiet p.outputs (translated p t).outputs
unfolding translated
translated-Quiet p t = frames-Quiet p.outputs t.frames

pick-Quiet :
    (b : Bool) (xs : List Output) (one other : Progress)
    → Quiet xs one.outputs
    → Quiet xs other.outputs
    → Quiet xs (if◌then◌else◌ {A = Progress} b one other).outputs
pick-Quiet true xs one other s t = s
pick-Quiet false xs one other s t = t

lifecycles-requests : (rs : List (String × Value)) → lifecycles (requests rs) ≡ []
lifecycles-requests [] = refl
lifecycles-requests (r ∷ rs) = lifecycles-requests rs

requested_in-requests : (rs : List (String × Value)) → requested_in (requests rs) ≡ rs
requested_in-requests [] = refl
requested_in-requests (r ∷ rs) = ap (λ q. r ∷ q) (requested_in-requests rs)

-- The last lifecycle event of a run, by what the run came to.
abbrev pub terminal : (Value → String) → String → Result (List (String × Value)) → Fields
terminal repr name (ok []) = lifecycle_data name "completed" end
terminal repr name (ok (r ∷ rs)) = lifecycle_data name "interrupted" end
terminal repr name (err e) =
    if is_exception e
    then lifecycle_data name "failed" (field "error" (str (failure_text repr e)) end)
    else lifecycle_data name "interrupted" end

-- The interrupts that a run leaves to be answered.
abbrev pub waiting : Result (List (String × Value)) → List (String × Value)
waiting (ok rs) = rs
waiting (err e) = []

-- They are registered if there are any.
abbrev pub registered : List (String × Value) → Option (List (String × Value))
registered [] = none
registered (r ∷ rs) = some (r ∷ rs)

-- What outputs that end with lifecycle event `fs` and requests `rs` add to quiet ones.
ended_lem :
    (xs ys : List Output) (fs : Fields) (rs : List (String × Value))
    → Quiet xs ys
    → (lifecycles (ys ++ lifecycle fs ∷ requests rs) ≡ lifecycles xs ++ fs ∷ [])
      × (requested_in (ys ++ lifecycle fs ∷ requests rs) ≡ requested_in xs ++ rs)
ended_lem xs ys fs rs (a, b) = (
  lifecycles-append ys (lifecycle fs ∷ requests rs)
      ∙ ap (λ r. r ++ fs ∷ lifecycles (requests rs)) a
      ∙ ap (λ r. lifecycles xs ++ fs ∷ r) (lifecycles-requests rs),
  requested_in-append ys (lifecycle fs ∷ requests rs)
      ∙ ap (λ r. r ++ requested_in (requests rs)) b
      ∙ ap (λ r. requested_in xs ++ r) (requested_in-requests rs),
)

module _ (loads : String → Option Value) (repr : Value → String)
    (message_to_dict : Value → Option (Fields × Value)) where
  take_item-Quiet :
      (p : Progress) (item : StreamItem)
      → Quiet p.outputs (take_item loads repr message_to_dict p item).outputs
  unfolding take_item
  take_item-Quiet p (messages chunk) =
      let fed = translated p (feed loads repr p.translator chunk) in
      let (a, b) = translated-Quiet p (feed loads repr p.translator chunk) in
      let (c, d) = translated-Quiet fed (finish_chunk loads fed.translator chunk) in
      pick-Quiet (truthy chunk.usage_metadata) p.outputs _ fed (c ∙ a, d ∙ b) (a, b)
  take_item-Quiet p (values fs) = (
    lifecycles-append p.outputs (state (serialize_values message_to_dict repr fs) ∷ [])
        ∙ append-nil _,
    requested_in-append p.outputs (state (serialize_values message_to_dict repr fs) ∷ [])
        ∙ append-nil _,
  )
  take_item-Quiet p other_mode = (refl, refl)

  take_items-Quiet :
      (p : Progress) (items : List StreamItem)
      → Quiet p.outputs (take_items loads repr message_to_dict p items).outputs
  unfolding take_items
  take_items-Quiet p [] = (refl, refl)
  take_items-Quiet p (item ∷ items) =
      let q = take_item loads repr message_to_dict p item in
      let (a, b) = take_items-Quiet q items in let (c, d) = take_item-Quiet p item in (a ∙ c, b ∙ d)

  -- A run's end adds the last event, and the interrupts if there are any.
  abbrev pub Concludes : String → List Output → Result (List (String × Value)) → Outcome → Type 0
  Concludes name xs result o =
      (lifecycles o.outputs ≡ lifecycles xs ++ terminal repr name result ∷ [])
      × (requested_in o.outputs ≡ requested_in xs ++ waiting result)
      × (o.pending ≡ registered (waiting result))

  closed_lem :
      (p : Progress) (fs : Fields)
      → let outputs = (finish_messages loads repr message_to_dict p).outputs ++ lifecycle fs ∷ [] in
        (lifecycles outputs ≡ lifecycles p.outputs ++ fs ∷ [])
        × (requested_in outputs ≡ requested_in p.outputs ++ [])
  closed_lem p fs =
      ended_lem p.outputs (finish_messages loads repr message_to_dict p).outputs fs []
        (translated-Quiet p _)

  conclude-Concludes :
      (name : String) (p : Progress) (result : Result (List (String × Value)))
      → Concludes name p.outputs result (conclude loads repr message_to_dict name p result)
  unfolding conclude
  conclude-Concludes name p (ok []) =
      let (a, b) = closed_lem p (terminal repr name (ok [])) in (a, b, refl)
  conclude-Concludes name p (ok (r ∷ rs)) =
      let (a, b) =
        ended_lem p.outputs p.outputs (terminal repr name (ok (r ∷ rs))) (r ∷ rs) (refl, refl) in
      (a, b, refl)
  conclude-Concludes name p (err e) = elim (Bool-cases (is_exception e)) [
    | inl caught ↦
        let (a, b) =
          closed_lem p
            (lifecycle_data name "failed" (field "error" (str (failure_text repr e)) end)) in
        simp caught (a, b, refl)
    | inr uncaught ↦
        let (a, b) = closed_lem p (lifecycle_data name "interrupted" end) in
        simp uncaught (a, b, refl)
  ]

  -- A run publishes exactly three lifecycle events: started, running and, at its end, the one that
  -- tells what it came to. Its interrupts are asked for, each once and in order, and they are
  -- registered as pending if there are any; a run that failed or was cancelled leaves none.
  pub execute-Concludes :
      (name : String) (items : List StreamItem) (ending : Ending)
      (snapshot : Option (Result Fields))
      → let p =
          take_items loads repr message_to_dict (begun loads repr message_to_dict name) items in
        let result = result_of loads repr message_to_dict p ending snapshot in
        let o = execute loads repr message_to_dict name items ending snapshot in
        (lifecycles o.outputs
          ≡ lifecycle_data name "started" end
            ∷ lifecycle_data name "running" end
            ∷ terminal repr name result
            ∷ [])
        × (requested_in o.outputs ≡ waiting result)
        × (o.pending ≡ registered (waiting result))
  unfolding execute begun
  execute-Concludes name items ending snapshot =
      let p = take_items loads repr message_to_dict (begun loads repr message_to_dict name) items in
      let result = result_of loads repr message_to_dict p ending snapshot in
      let (q, r) = take_items-Quiet (begun loads repr message_to_dict name) items in
      let (a, b, c) = conclude-Concludes name p result in
      (
        a ∙ ap (λ xs. xs ++ terminal repr name result ∷ []) q,
        b ∙ ap (λ xs. xs ++ waiting result) r,
        c,
      )
