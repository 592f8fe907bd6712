-- ===== src/Pool/Maintenance/Reasons.antt =====
-- What a reason to kill a session says, and which counter it goes to.
use eiger.Common.{
  ◌⊎◌, ◌≢◌, false, Result-cases, ℕ, ◌-◌, ◌≤◌, ◌<◌, ◌≡◌, refl, inl, inr, String, true, ◌&&◌, none,
  some, arith, ltb, Bool-cases, ok, err, fetch_add, Option-cases,
}
use eiger.Browser.{BrowserError}
use eiger.Metrics.{ProcessSample}
use eiger.Pool.{ready, PoolOptions, SessionEntry}
use eiger.Pool.State.{Counters}
use eiger.Pool.Shutdown.{count_recycle_reason}
use eiger.Pool.Sessions.{is_ready}
use eiger.Pool.Maintenance.{
  Probe, rss_reason, health_reason, cdp_check, process_check, kill_reason_for,
}

-- A limit that a session is over, with the counter that goes up for it.
pub data Over {F32 : Type 0} (o : PoolOptions) (p : Probe F32) (e : SessionEntry) (k k' : Counters)
    : Type 0 where
  lifetime :
      o.max_session_lifetime < p.instant - e.created_instant
      → k' ≡ record k {
        sessions_lifetime_recycled_total = fetch_add k.sessions_lifetime_recycled_total;
      }
      → Over o p e k k'
  idle :
      e.state ≡ ready
      → o.max_idle_time < p.instant - e.last_used_instant
      → k' ≡ record k { sessions_idle_recycled_total = fetch_add k.sessions_idle_recycled_total }
      → Over o p e k k'
  exited :
      p.sample ≡ none
      → k' ≡ record k {
        sessions_process_exit_recycled_total = fetch_add k.sessions_process_exit_recycled_total;
      }
      → Over o p e k k'
  rss :
      (sample : ProcessSample F32)
      → p.sample ≡ some sample
      → o.per_session_rss_limit_bytes < sample.rss_bytes
      → k' ≡ record k {
        sessions_rss_limit_recycled_total = fetch_add k.sessions_rss_limit_recycled_total;
      }
      → Over o p e k k'
  unhealthy :
      (error : BrowserError)
      → o.cdp_health_interval ≤ p.instant - e.last_cdp_health_check
      → p.health ≡ err error
      → k' ≡ record k {
        sessions_cdp_unhealthy_recycled_total = fetch_add k.sessions_cdp_unhealthy_recycled_total;
      }
      → Over o p e k k'

ready_of : (e : SessionEntry) → is_ready e.state ≡ true → e.state ≡ ready
ready_of e h = ground arith

unready : (e : SessionEntry) → is_ready e.state ≡ false → e.state ≢ ready
unready e h r = let clash : is_ready ready ≡ false = rw r at h in cc

count_rss :
    (k : Counters) (bytes limit : ℕ)
    → count_recycle_reason (rss_reason bytes limit) k ≡ record k {
      sessions_rss_limit_recycled_total = fetch_add k.sessions_rss_limit_recycled_total;
    }
unfolding count_recycle_reason rss_reason
count_rss k bytes limit = refl

count_unhealthy :
    (k : Counters) (error : BrowserError)
    → count_recycle_reason (health_reason error) k ≡ record k {
      sessions_cdp_unhealthy_recycled_total = fetch_add k.sessions_cdp_unhealthy_recycled_total;
    }
unfolding count_recycle_reason health_reason
count_unhealthy k error = refl

module _ {F32 : Type 0} (o : PoolOptions) (p : Probe F32) (e : SessionEntry) (k : Counters) where
  abbrev Counted : String → Type 0
  Counted r = Over o p e k (count_recycle_reason r k)

  cdp_check-Counted : (r : String) → (cdp_check o p e).1 ≡ some r → Counted r
  cdp_check-Counted r c = elim (Result-cases p.health) [
    | inl (u, q) ↦ absurd (ground arith)
    | inr (error, q) ↦
        let due : o.cdp_health_interval ≤ p.instant - e.last_cdp_health_check = ground arith in
        let same : health_reason error ≡ r = ground arith in
        rw (← same) (unhealthy error due q (count_unhealthy k error))
  ]

  process_check-Counted : (r : String) → (process_check o p e p.sample).1 ≡ some r → Counted r
  unfolding count_recycle_reason
  process_check-Counted r c = elim (Option-cases p.sample) [
    | inl q ↦ let same : "browser process exited" ≡ r = ground arith in rw (← same) (exited q refl)
    | inr (sample, q) ↦ elim (Bool-cases (ltb o.per_session_rss_limit_bytes sample.rss_bytes)) [
      | inl h ↦
          let over : o.per_session_rss_limit_bytes < sample.rss_bytes = ground arith in
          let same : rss_reason sample.rss_bytes o.per_session_rss_limit_bytes ≡ r = ground arith in
          rw (← same)
            (rss sample q over (count_rss k sample.rss_bytes o.per_session_rss_limit_bytes))
      | inr h ↦ cdp_check-Counted r (rw (q, process_check, h) at c)
    ]
  ]

  -- A reason to kill a session is always a limit that the session is over, and the one counter that it
  -- raises is that limit's.
  pub kill_reason_counted :
      (r : String) → (kill_reason_for o p e).1 ≡ some r → Over o p e k (count_recycle_reason r k)
  unfolding kill_reason_for count_recycle_reason
  kill_reason_counted r c =
      elim (Bool-cases (ltb o.max_session_lifetime (p.instant - e.created_instant))) [
        | inl h ↦
            let old : o.max_session_lifetime < p.instant - e.created_instant = ground arith in
            let same : "max session lifetime exceeded" ≡ r = ground arith in
            rw (← same) (lifetime old refl)
        | inr h ↦
            elim (Bool-cases
              (is_ready e.state && ltb o.max_idle_time (p.instant - e.last_used_instant))) [
                | inl g ↦
                    let rests : o.max_idle_time < p.instant - e.last_used_instant = ground arith in
                    let at_rest : is_ready e.state ≡ true = ground arith in
                    let same : "max idle time exceeded" ≡ r = ground arith in
                    rw (← same) (idle (ready_of e at_rest) rests refl)
                | inr g ↦ process_check-Counted r (rw (h, g) at c)
              ]
      ]

module _ {F32 : Type 0} (o : PoolOptions) (p : Probe F32) (e : SessionEntry) where
  -- A session with no reason to be killed is within every limit: its age, its rest if it is ready, a
  -- process tree that is there and small enough, and a browser that answered if a check was due.
  pub kill_reason_none :
      (kill_reason_for o p e).1 ≡ none
      → (p.instant - e.created_instant ≤ o.max_session_lifetime)
        × ((e.state ≢ ready) ⊎ (p.instant - e.last_used_instant ≤ o.max_idle_time))
        × ((sample : ProcessSample F32) × (p.sample ≡ some sample)
            × (sample.rss_bytes ≤ o.per_session_rss_limit_bytes))
        × ((p.instant - e.last_cdp_health_check < o.cdp_health_interval) ⊎ (p.health ≡ ok tt))
  unfolding kill_reason_for
  kill_reason_none c = elim (Option-cases p.sample) [
    | inl q ↦ absurd (ground arith)
    | inr (sample, q) ↦ (
      ground arith,
      (elim (Bool-cases (is_ready e.state)) [
        | inl h ↦ inr (ground arith)
        | inr h ↦ inl (unready e h)
      ]),
      (sample, q, ground arith),
      (elim (Result-cases p.health) [ inl (u, g) ↦ inr g | inr (error, g) ↦ inl (ground arith) ]),
    )
  ]
