-- ===== src/Api/Handlers/Router/Reading.antt =====
-- crates/eiger-api/src/lib.rs: what the routes leave of the pool of sessions.
use eiger.Common.{◌≡◌, refl, inl, inr, none, Bool-cases, Result, ok, err, String}
use eiger.Serde.{Serde}
use eiger.Pool.{SessionOverrides}
use eiger.Pool.Runtime.{Runtime}
use eiger.Pool.State.{SessionPool}
use eiger.Api.Requests.{RestEndpointError}
use eiger.Api.Responses.{Response}
use eiger.Api.Rest.{RestEnv, with_rest_session}
use eiger.Api.Rest.Cleanup.{IsRestored, with_rest_session-IsRestored}
use eiger.Api.Handlers.{External, Request, Handler, guarded, with_overrides, is_authorized}
use eiger.Api.Handlers as Handlers
use eiger.Api.Handlers.View.{view_sessions}
use eiger.Api.Handlers.Endpoints.{checked, answered, in_session}
use eiger.Api.Handlers.Endpoints as Endpoints
use eiger.Api.Handlers.Router.{
  Route, connect_new, metrics, scrape, screenshot, pdf, list, create, view, get, delete,
  connect_existing, documentation, rejected, api_router,
}

module _ (rt : Runtime) {J : Serde} {F32 : Type 0} (x : External J F32) where
  -- The handler leaves the pool with the sessions and the free permits that it has.
  record Restores (s : SessionPool rt) (handler : Handler rt x) : Type 0 where
    restored : IsRestored rt s (handler s).1

  unchanged : (s : SessionPool rt) → IsRestored rt s s
  unchanged s = record { same_sessions = λ j. refl; same_available = refl }

  guarded-Restores :
      {s : SessionPool rt} (r : Request) (handler : Handler rt x)
      → Restores s handler
      → Restores s (guarded rt x r handler)
  unfolding guarded
  guarded-Restores {s = s} r handler h = record {
    restored = elim (Bool-cases (is_authorized r)) [
      | inl e ↦ rw e h.restored
      | inr e ↦ rw e (unchanged s)
    ];
  }

  reading-Restores :
      {s : SessionPool rt} (r : Request) (f : SessionPool rt → Response F32)
      → Restores s (guarded rt x r (λ t. (f t, t)))
  reading-Restores {s = s} r f = guarded-Restores r _ (record { restored = unchanged s })

  checked-Restores {ℓ} :
      {A : Type ℓ} {s : SessionPool rt} (o : Result A RestEndpointError)
      (handler : A → Handler rt x)
      → ((a : A) → Restores s (handler a))
      → Restores s (checked rt x o handler)
  unfolding checked
  checked-Restores (ok a) handler h = record { restored = (h a).restored }
  checked-Restores {s = s} (err e) handler h = record { restored = unchanged s }

  answered-IsRestored {ℓ} :
      {T : Type ℓ} (f : T → Response F32) (p : Result T RestEndpointError × SessionPool rt)
      → (s : SessionPool rt) → IsRestored rt s p.1
      → IsRestored rt s (answered rt x f p).1
  unfolding answered
  answered-IsRestored f (ok a, t) s h = h
  answered-IsRestored f (err e, t) s h = h

  in_session-Restores :
      {T : Type 0} {s : SessionPool rt} (env : RestEnv) (f : T → Response F32)
      → (operation : String → Result T RestEndpointError) → (o : Result SessionOverrides String)
      → rt.get s.sessions env.create.id ≡ none
      → Restores s (in_session rt x env f operation o)
  unfolding in_session with_overrides
  in_session-Restores {s = s} env f operation (err e) fresh = record { restored = unchanged s }
  in_session-Restores {s = s} env f operation (ok v) fresh = record {
    restored =
        answered-IsRestored f (with_rest_session rt env operation v s) s
          (with_rest_session-IsRestored rt env operation v s fresh);
  }

  -- The routes that only read, and those that have a session of their own, whose id is new.
  abbrev pub Restoring : SessionPool rt → Route J.F64 → Type 0
  Restoring s metrics = Unit
  Restoring s list = Unit
  Restoring s view = Unit
  Restoring s (get id) = Unit
  Restoring s (scrape env payload) = rt.get s.sessions env.create.id ≡ none
  Restoring s (screenshot env payload) = rt.get s.sessions env.create.id ≡ none
  Restoring s (pdf env payload) = rt.get s.sessions env.create.id ≡ none
  Restoring s (create env payload) = ⊥
  Restoring s (delete answers id) = ⊥
  Restoring s (connect_new env) = ⊥
  Restoring s (connect_existing id) = ⊥
  Restoring s (documentation status content_type body) = Unit
  Restoring s (rejected status content_type body) = Unit

  restoring :
      {s : SessionPool rt} (r : Request) (route : Route J.F64)
      → Restoring s route
      → Restores s (api_router rt x r route)
  unfolding api_router view_sessions Handlers.metrics Handlers.list_sessions Handlers.get_session
      Endpoints.scrape Endpoints.screenshot Endpoints.pdf
  restoring r metrics h = reading-Restores r _
  restoring r list h = reading-Restores r _
  restoring r view h = reading-Restores r _
  restoring r (get id) h = reading-Restores r _
  restoring r (scrape env payload) h =
      guarded-Restores r _ (checked-Restores _ _ λ options. in_session-Restores env _ _ _ h)
  restoring r (screenshot env payload) h = guarded-Restores r _ (
      checked-Restores _ _
        λ options. checked-Restores _ _ λ format. in_session-Restores env _ _ _ h)
  restoring r (pdf env payload) h = guarded-Restores r _ (
      checked-Restores _ _
        λ options. checked-Restores _ _ λ print_options. in_session-Restores env _ _ _ h)
  restoring r (create env payload) h = absurd h
  restoring r (delete answers id) h = absurd h
  restoring r (connect_new env) h = absurd h
  restoring r (connect_existing id) h = absurd h
  restoring {s = s} r (documentation status content_type body) h = record { restored = unchanged s }
  restoring {s = s} r (rejected status content_type body) h = record { restored = unchanged s }

  -- The routes that report, and those of the REST endpoints under a new id, leave the pool with the
  -- sessions and the number of free permits that it has, whatever their arguments and however they end.
  pub api_router-IsRestored :
      (r : Request) (route : Route J.F64) (s : SessionPool rt)
      → Restoring s route
      → IsRestored rt s (api_router rt x r route s).1
  api_router-IsRestored r route s h = (restoring r route h).restored
