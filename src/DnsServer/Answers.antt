-- ===== src/DnsServer/Answers.antt =====
-- What the DNS front end answers, and what it leaves of the pool.
use spaceship.Base.{
  ◌++◌, ℕ, ◌<◌, ◌^◌, Bool, List, [], ◌∷◌, map, Option, none, some, All, ◌≡◌, refl, sym, ap, ◌∙◌,
  Result, ok, err,
}
use spaceship.DnsServer.{Question, request_of, Pooled, reply_of, serve_with, serve_dns}
use spaceship.Rpc.Client.Resolve.{DnsRequest, resolve_by}
use spaceship.Rpc.Client.Setup.{
  Vars, Lease, from_pool, of_its_own, SetupError, lease_of, replacement_of, closed_one, settle,
  lease_from, new_client, close_client,
}
use spaceship.Rpc.Pool.Life.{Counts, Restores, get_conn-done}
use spaceship.Rpc.Pool.Replace.{Outcome, replace_conn-closes}
use spaceship.Rpc.Pool.{
  ConnQueue, Got, pooled, outside, dial_failed, queue_down, none_available, replacing, get_conn,
  ConnWrapper, replace_conn, State,
}
use spaceship.Rpc.Records.{DnsLib, rcode_server_failure}
use spaceship.Rpc.Resolution.Agreement.{
  Roundtrips, ShortCodes, records_of, code_of, resolve-answers,
}
use spaceship.Rpc.Resolution.{call}

abbrev pub PoolCounts : Option ConnQueue → Type 0
PoolCounts none = Unit {0}
PoolCounts (some q) = Counts q.conn

-- The connections that a lease owns.
abbrev pub owned : Result SetupError Lease → List ℕ
owned (err e) = []
owned (ok (from_pool h)) = []
owned (ok (of_its_own h)) = h ∷ []

-- A lease that is given back at once leaves everything as it was.
abbrev GivenBack : Vars → Vars × Result SetupError Lease × Option ConnWrapper → Type 0
GivenBack v (v', err e, o) = v' ≡ v
GivenBack v (v', ok lease, o) = (close_client v' lease).0 ≡ v

got-GivenBack :
    (v : Vars) (q q' : ConnQueue) (g : Got)
    → v.queue ≡ some q
    → Restores q (q', g)
    → GivenBack v (record v { queue = some q' }, lease_of g, replacement_of g)
unfolding lease_of close_client
got-GivenBack v q q' (pooled h) e r = ap (λ x. record v { queue = x }) (ap (λ x. some x) r ∙ sym e)
got-GivenBack v q q' (outside h) e r = ap (λ x. record v { queue = x }) (ap (λ x. some x) r ∙ sym e)
got-GivenBack v q q' dial_failed e r = ap (λ x. record v { queue = x }) (ap (λ x. some x) r ∙ sym e)
got-GivenBack v q q' queue_down e r = ap (λ x. record v { queue = x }) (ap (λ x. some x) r ∙ sym e)
got-GivenBack v q q' none_available e r =
    ap (λ x. record v { queue = x }) (ap (λ x. some x) r ∙ sym e)
got-GivenBack v q q' (replacing w) e r =
    ap (λ x. record v { queue = x }) (ap (λ x. some x) r ∙ sym e)

lease_from-GivenBack :
    (v : Vars) (states states' : ℕ → State) (dial : Option ℕ) (queue : Option ConnQueue)
    → v.queue ≡ queue
    → PoolCounts queue
    → GivenBack v (lease_from v states states' dial queue)
unfolding lease_from
lease_from-GivenBack v states states' dial none e c = refl
lease_from-GivenBack v states states' dial (some q) e c =
    let got = get_conn q states states' dial in
    got-GivenBack v q got.0 got.1 e (get_conn-done q states states' dial c)

module _ (lib : DnsLib) (roundtrips : Roundtrips lib) (short : ShortCodes lib) where
  -- The questions as requests of the client.
  abbrev pub requests : Bool → List Question → List DnsRequest
  requests block qs = map (request_of block) qs

  requests-some :
      (block : Bool) (qs : List Question)
      → map (λ q. some (request_of block q)) qs ≡ map (λ r. some r) (requests block qs)
  requests-some block [] = refl
  requests-some block (q ∷ qs) = ap (λ l. some (request_of block q) ∷ l) (requests-some block qs)

  requests-types :
      (block : Bool) (qs : List Question)
      → All (λ q. q.qtype < 2 ^ 16) qs
      → All (λ r. r.q_type < 2 ^ 16) (requests block qs)
  unfolding request_of
  requests-types block [] h = tt
  requests-types block (q ∷ qs) (h, hs) = (h, requests-types block qs hs)

  -- What the client has of the server is the message, or the failure of the server if there is no
  -- connection to ask.
  abbrev pub expected : Bool → List Question → Result SetupError Lease → List lib.RR × ℕ
  expected block qs (err e) = ([], rcode_server_failure)
  expected block qs (ok lease) =
      (records_of lib (requests block qs), code_of lib (requests block qs))

  reply_lem :
      (block : Bool) (qs : List Question)
      → All (λ q. q.qtype < 2 ^ 16) qs
      → reply_of lib (resolve_by lib (call lib) (map (λ q. some (request_of block q)) qs))
        ≡ (records_of lib (requests block qs), code_of lib (requests block qs))
  unfolding reply_of
  reply_lem block qs h =
      ap (λ l. reply_of lib (resolve_by lib (call lib) l)) (requests-some block qs)
      ∙ ap (reply_of lib)
          (resolve-answers lib roundtrips short (requests block qs) (requests-types block qs h))

  serve_with-answers :
      (block : Bool) (v : Vars) (qs : List Question)
      (got : Vars × Result SetupError Lease × Option ConnWrapper)
      → All (λ q. q.qtype < 2 ^ 16) qs
      → GivenBack v got
      → ((serve_with lib (call lib) block qs got).0 ≡ v)
        × ((serve_with lib (call lib) block qs got).1 ≡ expected block qs got.1)
        × ((serve_with lib (call lib) block qs got).2 ≡ owned got.1)
  unfolding serve_with close_client
  serve_with-answers block v qs (v', err e, o) h back = (back, refl, refl)
  serve_with-answers block v qs (v', ok (from_pool c), o) h back =
      (back, reply_lem block qs h, refl)
  serve_with-answers block v qs (v', ok (of_its_own c), o) h back =
      (back, reply_lem block qs h, refl)

  settle-none :
      (v : Vars) (o : Option ConnWrapper) (redial : Option ℕ)
      → o ≡ none
      → settle v o redial ≡ (v, [])
  unfolding settle
  settle-none v o redial e = ap (λ x. settle v x redial) e

  settle-some :
      (v : Vars) (o : Option ConnWrapper) (q : ConnQueue) (w : ConnWrapper) (redial : Option ℕ)
      → v.queue ≡ some q
      → o ≡ some w
      → settle v o redial ≡ (
        record v { queue = some (replace_conn q w redial).0 },
        closed_one (replace_conn q w redial).1,
      )
  unfolding settle
  settle-some v o q w redial e k = ap (λ x. settle v x redial) k ∙ rw (e, settle) refl

  -- A DNS message through the program, from its front end to the server's name server and back: it is
  -- answered with the records of the name server's answers in the order of its questions, less the
  -- AAAA records where the front end blocks them, and the first code that is not a success, or with
  -- the code of a server failure where the pool has no connection to give. Unless the connection that
  -- was picked had been shut down, the variables of the client, with every load of the pool, are as
  -- before, and what is closed is the connection that was dialed for the message, if one was. If it had
  -- been, and once the goroutine that replaces it has run: with a new connection, the pool differs at
  -- one place of the old one at most, and either the old connection or the new one is closed, as the
  -- outcome of a replacement says; without one, all is as before. The hypotheses are those of a
  -- resolution, and counters below 2 ^ 32; nothing else uses the pool in between.
  pub serve_dns-answers :
      (block : Bool) (v : Vars) (p : Pooled) (qs : List Question)
      → All (λ q. q.qtype < 2 ^ 16) qs
      → PoolCounts v.queue
      → let got = new_client v p.states p.states' p.dial in
        let out = serve_dns lib (call lib) block v p qs in
        (out.1 ≡ expected block qs got.1)
        × (got.2 ≡ none → (out.0 ≡ v) × (out.2 ≡ owned got.1 ++ []))
        × ((q : ConnQueue) (w : ConnWrapper)
            → v.queue ≡ some q
            → got.2 ≡ some w
            → (p.redial ≡ none → (out.0 ≡ v) × (out.2 ≡ owned got.1 ++ []))
              × ((handle : ℕ)
                  → p.redial ≡ some handle
                  → (q' : ConnQueue) × (closed : Option ℕ) × Outcome q w handle (q', closed)
                    × (out.0 ≡ record v { queue = some q' })
                    × (out.2 ≡ owned got.1 ++ closed_one closed)))
  unfolding serve_dns new_client replace_conn
  serve_dns-answers block v p qs h c =
      let got = new_client v p.states p.states' p.dial in
      let (left, reply, closed) =
        serve_with-answers block v qs got h
          (lease_from-GivenBack v p.states p.states' p.dial v.queue refl c) in
      let vars = ap (λ x. (settle x got.2 p.redial).0) left in
      let shut : (serve_dns lib (call lib) block v p qs).2
          ≡ owned got.1 ++ (settle v got.2 p.redial).1 =
        λ i. closed i ++ (settle (left i) got.2 p.redial).1 in
      (
        reply,
        (λ e.
            let s = settle-none v got.2 p.redial e in
            (vars ∙ ap (λ x. x.0) s, shut ∙ ap (λ x. owned got.1 ++ x.1) s)),
        λ q w e k.
            let s = settle-some v got.2 q w p.redial e k in
            (
              (λ n.
                  let still = ap (replace_conn q w) n in
                  (
                    vars
                        ∙ ap (λ x. x.0) s
                        ∙ ap (λ x. record v { queue = some x.0 }) still
                        ∙ ap (λ x. record v { queue = x }) (sym e),
                    shut
                        ∙ ap (λ x. owned got.1 ++ x.1) s
                        ∙ ap (λ x. owned got.1 ++ closed_one x.1) still,
                  )),
              λ handle n.
                  let new = ap (replace_conn q w) n in
                  (
                    (replace_conn q w (some handle)).0,
                    (replace_conn q w (some handle)).1,
                    replace_conn-closes q w handle,
                    vars ∙ ap (λ x. x.0) s ∙ ap (λ x. record v { queue = some x.0 }) new,
                    shut
                        ∙ ap (λ x. owned got.1 ++ x.1) s
                        ∙ ap (λ x. owned got.1 ++ closed_one x.1) new,
                  ),
            ),
      )
