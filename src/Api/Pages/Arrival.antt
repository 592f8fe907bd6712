-- ===== src/Api/Pages/Arrival.antt =====
-- crates/eiger-api/src/lib.rs: what `navigate_page` waits for.
use mathlib.Core.List.{Mem, mem-cons_self, mem-cons_of_mem}
use eiger.Common.{
  ◌≡◌, subst, String, List, [], ◌∷◌, Option, none, some, Bool-cases, inl, inr, All, All-map,
}
use eiger.Common.Exec.{done, final, after_done, ◌>>=◌, raise}
use eiger.Text.{is_one_of}
use eiger.Serde.{Serde}
use eiger.Socket.{Incoming}
use eiger.Api.Requests.{WaitUntil, PageLoadOptions}
use eiger.Api.WaitUntil.{lifecycle_name}
use eiger.Api.Cdp.{CdpConnection, command, wait_for_lifecycle, str_at, arrived}
use eiger.Api.Pages.{clear_events, after_navigation, navigate_page}
use eiger.Api.Cdp.Events.{Announced, Heard, receive_until-Heard, command-Heard, receive-arrived}

module _ (J : Serde) where
  module _ (all : List Incoming) where
    waited :
        (session_id : String) (wait_until : WaitUntil) (c d : CdpConnection) (u : Unit {0})
        → wait_for_lifecycle J session_id wait_until c ≡ done u d
        → Heard J all c
        → Announced J (lifecycle_name wait_until) all
    unfolding wait_for_lifecycle
    waited session_id wait_until c d u e h =
        let expected = lifecycle_name wait_until in
        elim (Bool-cases (is_one_of c.lifecycle_events expected)) [
          | inl g ↦ h.announced expected g
          | inr g ↦
              let ends = rw g at e in
              let decide = arrived J session_id expected in
              let at =
                receive_until-Heard J all decide "Page.lifecycleEvent" c.socket.incoming c h.rest
                  h.announced in
              let there : Heard J all d = subst (λ o. Heard J all (final o)) ends at in
              there.announced expected (
                receive-arrived J all session_id expected "Page.lifecycleEvent" c.socket.incoming c
                  d u ends)
        ]

    navigated :
        (session_id : String) (options : PageLoadOptions) (o : Option String) (c d : CdpConnection)
        (u : Unit {0})
        → after_navigation J session_id options o c ≡ done u d
        → Heard J all c
        → Announced J (lifecycle_name options.wait_until) all
    unfolding raise
    navigated session_id options (some error) c d u e h = absurd cc
    navigated session_id options none c d u e h = waited session_id options.wait_until c d u e h

  all_of : (messages : List Incoming) → All (λ x. Mem x messages) messages
  all_of [] = tt
  all_of (x ∷ rest) = (mem-cons_self, All-map (λ y m. mem-cons_of_mem x m) rest (all_of rest))

  -- A navigation that succeeds has waited: among the messages that came in since it began is one that
  -- says that the lifecycle event of the request's `waitUntil` happened. Events that were on record
  -- before do not count.
  pub navigate_page-Announced :
      (session_id : String) (options : PageLoadOptions) (c d : CdpConnection) (u : Unit {0})
      → navigate_page J session_id options c ≡ done u d
      → Announced J (lifecycle_name options.wait_until) c.socket.incoming
  unfolding navigate_page clear_events ◌>>=◌
  navigate_page-Announced session_id options c d u e =
      let all = c.socket.incoming in
      let cleared : Heard J all (record c { lifecycle_events = [] }) = record {
        rest = all_of all;
        announced = λ name h. absurd cc;
      } in
      after_done
        (command J (some session_id) "Page.navigate" (J.object (("url", J.string options.url) ∷ []))
          (record c { lifecycle_events = [] }))
        _ e
        λ result c₂ ran rest.
          navigated all session_id options (str_at J result "errorText") c₂ d u rest
            (command-Heard J all _ _ _ _ c₂ result ran cleared)
