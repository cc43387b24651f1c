-- ===== src/Mock/Answers.antt =====
-- What the mock server of crates/specforge-core/src/mock.rs has to answer to a request, read off
-- the document, and that its routes do so.
use mathlib.Core.Bool.{and-eq-true_iff}
use specforge_openapi_sdk_co.Prelude.{
  ℕ, suc, ◌+◌, ◌≤◌, ◌<◌, arith, ◌≡◌, refl, ap, String, true, Option, none, some, List, [], ◌∷◌, ◌⊕◌,
  All, Option-cases, Bool-cases, inl, inr, ◌==◌, ◌&&◌, eq_iff, length,
}
use specforge_openapi_sdk_co.Json.{Json}
use specforge_openapi_sdk_co.Ir.{IrType, SchemaRegistry, Operation, Response, upper}
use specforge_openapi_sdk_co.Diff.Version.{parse_u16}
use specforge_openapi_sdk_co.Validate.{Host}
use specforge_openapi_sdk_co.Mock.{
  Printer, Route, generate_example_json, success_status, pick_success_response, routes_of,
  find_route, status_line, answer,
}
use specforge_openapi_sdk_co.Mock.Examples.{Exemplary, generate_example_json-Conforms}
use specforge_openapi_sdk_co.Mock.Fuel.{generate-at_least}

-- What a mock server has to answer, stated without its routes. The status of a response is a
-- number for a success.
abbrev pub Succeeds : Response → ℕ → Type 0
Succeeds r n = (parse_u16 r.status ≡ some n) × (200 ≤ n) × (n < 300)

-- The type of the body, if there is a body, has an example.
abbrev pub BodyExemplary : SchemaRegistry → Option IrType → Type 0
BodyExemplary schemas none = Unit
BodyExemplary schemas (some ty) = Exemplary schemas ty

abbrev pub AllExemplary : SchemaRegistry → List Operation → Type 0
AllExemplary schemas ops = All (λ op. All (λ r. BodyExemplary schemas r.body) op.responses) ops

module _ {Number : Type 0} (printer : Printer Number) (schemas : SchemaRegistry) where
  -- The first response of a success decides the status and the body: an example of its type, or
  -- empty braces where it has none. Without such a response it is 200 and empty braces.
  pub data Picked : List Response → ℕ → String → Type 0 where
    nothing : Picked [] 200 "{}"
    skip :
        {r : Response} {rs : List Response} {n : ℕ} {text : String}
        → ((m : ℕ) → ¬ Succeeds r m)
        → Picked rs n text
        → Picked (r ∷ rs) n text
    bare :
        {r : Response} {rs : List Response} {n : ℕ}
        → Succeeds r n
        → r.body ≡ none
        → Picked (r ∷ rs) n "{}"
    example :
        {r : Response} {rs : List Response} {n : ℕ} {ty : IrType} {v : Json Number} (fuel : ℕ)
        → Succeeds r n
        → r.body ≡ some ty
        → generate_example_json printer schemas fuel ty ≡ some v
        → Picked (r ∷ rs) n (printer.to_string_pretty v)

  -- The first operation of the method whose path is letter by letter that of the request is
  -- answered for; if there is none, the answer is 404.
  pub data Answered (not_found : String → String) (method path : String)
      : List Operation → String × String → Type 0 where
    missing :
        Answered not_found method path []
          ("HTTP/1.1 404 Not Found", not_found ("No route found for " ⊕ method ⊕ " " ⊕ path))
    other :
        {op : Operation} {ops : List Operation} {reply : String × String}
        → ¬ ((upper op.method ≡ method) × (op.path ≡ path))
        → Answered not_found method path ops reply
        → Answered not_found method path (op ∷ ops) reply
    this :
        {op : Operation} {ops : List Operation} {n : ℕ} {text : String}
        → upper op.method ≡ method
        → op.path ≡ path
        → Picked op.responses n text
        → Answered not_found method path (op ∷ ops) (status_line n, text)

  -- A route stands for its operation.
  pub record Serves (op : Operation) (route : Route) : Type 0 where
    same_method : route.method ≡ upper op.method
    same_path : route.path ≡ op.path
    picked : Picked op.responses route.status route.body

  pub data EachServes : List Operation → List Route → Type 0 where
    done : EachServes [] []
    more :
        {op : Operation} {ops : List Operation} {route : Route} {routes : List Route}
        → Serves op route
        → EachServes ops routes
        → EachServes (op ∷ ops) (route ∷ routes)

  Picked-bounds :
      (rs : List Response) (n : ℕ) (text : String) → Picked rs n text → (200 ≤ n) × (n < 300)
  Picked-bounds _ _ _ Picked.nothing = (omega arith, omega arith)
  Picked-bounds _ _ _ (Picked.skip {rs = rs} {n = n} {text = text} h p) = Picked-bounds rs n text p
  Picked-bounds _ _ _ (Picked.bare h e) = (h.1, h.2)
  Picked-bounds _ _ _ (Picked.example fuel h e g) = (h.1, h.2)

  success_status-Succeeds :
      (r : Response) (n : ℕ) → success_status (parse_u16 r.status) ≡ some n → Succeeds r n
  success_status-Succeeds r n e = elim (Option-cases (parse_u16 r.status)) [
    | inl bad ↦ absurd (let f = rw bad at e in cc)
    | inr (m, read) ↦
        let f : success_status (some m) ≡ some n = rw read at e in
        let (same, low, high) = in_range m f in (cc (read, same), low, high)
  ]
    where
      in_range : (m : ℕ) → success_status (some m) ≡ some n → (m ≡ n) × (200 ≤ n) × (n < 300)
      in_range m h = ground arith

  success_status-not_Succeeds :
      (r : Response) → success_status (parse_u16 r.status) ≡ none → (n : ℕ) → ¬ Succeeds r n
  success_status-not_Succeeds r e n (read, low, high) = absurd (out_of_range (rw read at e))
    where
      out_of_range : success_status (some n) ≡ none → ⊥
      out_of_range h = ground arith

  -- With enough fuel, and with more.
  pick-Picked :
      (rs : List Response)
      → All (λ r. BodyExemplary schemas r.body) rs
      → (enough : ℕ) × (n : ℕ) × (text : String) × ((fuel : ℕ)
          → enough ≤ fuel
          → pick_success_response printer schemas fuel rs ≡ some (n, text))
        × Picked rs n text
  unfolding pick_success_response
  pick-Picked [] h = (0, 200, "{}", λ fuel le. refl, Picked.nothing)
  pick-Picked (r ∷ rs) (h, hs) = elim (Option-cases (success_status (parse_u16 r.status))) [
    | inl failure ↦
        let (enough, n, text, picks, picked) = pick-Picked rs hs in
        (
          enough,
          n,
          text,
          λ fuel le. rw (failure, pick_success_response) (picks fuel le),
          Picked.skip (success_status-not_Succeeds r failure) picked,
        )
    | inr (n, success) ↦
        let succeeds = success_status-Succeeds r n success in
        elim (Option-cases r.body) [
          | inl no_body ↦ (
            0,
            n,
            "{}",
            λ fuel le. rw (success, no_body, pick_success_response) refl,
            Picked.bare succeeds no_body,
          )
          | inr (ty, body) ↦
              let (enough, v, gives, conf) =
                generate_example_json-Conforms integers printer refl schemas ty (rw body at h) in
              (
                enough,
                n,
                printer.to_string_pretty v,
                λ fuel le.
                    rw
                      (
                        success,
                        body,
                        generate-at_least printer schemas enough fuel ty v le gives,
                        pick_success_response,
                      )
                      refl,
                Picked.example enough succeeds body gives,
              )
        ]
  ]
    where
      -- Every number counts as an integer, so that the examples conform.
      integers : Host
      integers = record {
        Number = Number;
        is_i64 = λ n. true;
        is_u64 = λ n. true;
        debug = λ vs. "";
        display = λ n. "";
      }

  pub routes_of-EachServes :
      (ops : List Operation)
      → AllExemplary schemas ops
      → (enough : ℕ) × (routes : List Route) × ((fuel : ℕ)
          → enough ≤ fuel
          → routes_of printer schemas fuel ops ≡ some routes)
        × EachServes ops routes
  unfolding routes_of
  routes_of-EachServes [] h = (0, [], λ fuel le. refl, EachServes.done)
  routes_of-EachServes (op ∷ ops) (h, hs) =
      let (first, n, text, picks, picked) = pick-Picked op.responses h in
      let (later, routes, built, served) = routes_of-EachServes ops hs in
      (
        first + later,
        record { method = upper op.method; path = op.path; status = n; body = text } ∷ routes,
        λ fuel le. rw (picks fuel (omega arith), built fuel (omega arith), routes_of) refl,
        EachServes.more (record { same_method = refl; same_path = refl; picked = picked }) served,
      )

  pub EachServes-status :
      (ops : List Operation) (routes : List Route)
      → EachServes ops routes
      → (length routes ≡ length ops) × All (λ r. (200 ≤ r.status) × (r.status < 300)) routes
  EachServes-status _ _ EachServes.done = (refl, tt)
  EachServes-status _ _ (EachServes.more {op} {ops} {route} {routes} s ss) =
      let (many, later) = EachServes-status ops routes ss in
      (ap suc many, (Picked-bounds op.responses route.status route.body s.picked, later))

  pub EachServes-Answered :
      (not_found : String → String) (method path : String) (ops : List Operation)
      (routes : List Route)
      → EachServes ops routes
      → Answered not_found method path ops (answer not_found routes method path)
  unfolding answer find_route
  EachServes-Answered not_found method path _ _ EachServes.done = Answered.missing
  EachServes-Answered not_found method path _ _ (EachServes.more {op} {ops} {route} {routes} s ss) =
      elim (Bool-cases (route.method == method && route.path == path)) [
        | inl here ↦
            let (m, p) = (and-eq-true_iff (route.method == method) (route.path == path)).0 here in
            rw (here, answer)
              (Answered.this (cc (s.same_method, (eq_iff route.method method).0 m))
                (cc (s.same_path, (eq_iff route.path path).0 p)) s.picked)
        | inr away ↦
            rw (away, answer)
              (Answered.other
                (λ (m, p). absurd (
                  cc (
                    away,
                    (and-eq-true_iff (route.method == method) (route.path == path)).1 (
                      (eq_iff route.method method).1 (cc (m, s.same_method)),
                      (eq_iff route.path path).1 (cc (p, s.same_path)),
                    ),
                  )))
                (EachServes-Answered not_found method path ops routes ss))
      ]
