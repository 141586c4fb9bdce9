-- ===== src/Fedroute/Adverts/Once.antt =====
-- A flooded advert of src/fedroute.rs is passed on once, and never back along its path.
use brew_server.Common.{
  ℕ, ◌≡◌, ◌≤◌, ◌≢◌, Bool, true, false, Option, none, some, List, [], ◌∷◌, arith, leb, nat_eq,
  pair_eq, pair_beq_iff, nat_beq_iff, last, length, All, lookup, lookup-insert, contains,
  Bool-cases, Option-cases, inl, inr,
}
use brew_server.State.{ClientId, Inner, RemoteEm, Send}
use brew_server.Fedroute.Messages.{EmAdvert, max_path}
use brew_server.Fedroute.Adverts.{gets, send_to, relay_em}
use brew_server.Fedroute.Adverts.Accept.{own_advert, accept_em}

-- The alarm held for an origin and ISSI has at least this clock.
abbrev pub heard : Inner → ℕ × ℕ → ℕ → Bool
heard inner key seq = elim (lookup key inner.fed.em_remote) [
  | none ↦ false
  | some e ↦ leb seq e.seq
]

accept_em-heard :
    (inner : Inner) (source : ClientId) (a : EmAdvert) (now origin : ℕ)
    → last a.path ≡ some origin
    → own_advert inner.fed.self_id a.path origin ≡ false
    → heard (accept_em inner source a now).0 (origin, a.issi) a.seq ≡ true
unfolding accept_em
accept_em-heard inner source a now origin l o =
    let entry : RemoteEm = record {
      dest = a.dest;
      bts = a.bts;
      active = a.active;
      seq = a.seq;
      path = a.path;
      seen_ms = now;
    } in
    ground (
      arith,
      lookup-insert (origin, a.issi) (origin, a.issi) entry inner.fed.em_remote,
      nat_beq_iff origin origin,
      nat_beq_iff a.issi a.issi,
    )

accept_em-silent :
    (inner : Inner) (source : ClientId) (a : EmAdvert) (now origin : ℕ)
    → last a.path ≡ some origin
    → heard inner (origin, a.issi) a.seq ≡ true
    → accept_em inner source a now ≡ (inner, [])
unfolding accept_em
accept_em-silent inner source a now origin l h = ground arith

heard_older :
    (inner : Inner) (key : ℕ × ℕ) (low high : ℕ)
    → low ≤ high
    → heard inner key high ≡ true
    → heard inner key low ≡ true
heard_older inner key low high l h = ground arith

-- Another alarm leaves the clocks held as high as they are.
accept_em-still_heard :
    (inner : Inner) (source : ClientId) (a : EmAdvert) (now : ℕ) (key : ℕ × ℕ) (seq : ℕ)
    → heard inner key seq ≡ true
    → heard (accept_em inner source a now).0 key seq ≡ true
unfolding accept_em
accept_em-still_heard inner source a now key seq h = elim (Option-cases (last a.path)) [
  | inl n ↦ rw (n, accept_em) h
  | inr (origin, l) ↦ elim (Bool-cases (own_advert inner.fed.self_id a.path origin)) [
    | inl o ↦ rw (l, o, accept_em) h
    | inr o ↦ elim (Bool-cases (heard inner (origin, a.issi) a.seq)) [
      | inl k ↦ rw (accept_em-silent inner source a now origin l k) h
      | inr k ↦
          let entry : RemoteEm = record {
            dest = a.dest;
            bts = a.bts;
            active = a.active;
            seq = a.seq;
            path = a.path;
            seen_ms = now;
          } in
          ground (
            arith,
            lookup-insert (origin, a.issi) key entry inner.fed.em_remote,
            pair_beq_iff (origin, a.issi) key,
          )
    ]
  ]
]

-- An alarm that arrives over a link.
pub record Arrived : Type 0 where
  pub link : ClientId
  pub alarm : EmAdvert
  pub now : ℕ

pub accept_all : Inner → List Arrived → Inner
accept_all inner [] = inner
accept_all inner (x ∷ xs) = accept_all (accept_em inner x.link x.alarm x.now).0 xs

accept_all-still_heard :
    (inner : Inner) (xs : List Arrived) (key : ℕ × ℕ) (seq : ℕ)
    → heard inner key seq ≡ true
    → heard (accept_all inner xs) key seq ≡ true
unfolding accept_all
accept_all-still_heard inner [] key seq h = h
accept_all-still_heard inner (x ∷ xs) key seq h =
    accept_all-still_heard (accept_em inner x.link x.alarm x.now).0 xs key seq
      (accept_em-still_heard inner x.link x.alarm x.now key seq h)

-- Once an alarm of another server, not one that came through this server, has been taken in, and any
-- alarms have been taken in after it, every copy of it and every older alarm of that server for the
-- ISSI is ignored, over whatever link it comes: nothing is sent and nothing changes. This is while
-- no purge forgets the alarm.
pub accept_em_once :
    (inner : Inner) (source again : ClientId) (a b : EmAdvert) (xs : List Arrived)
    (now later origin : ℕ)
    → last a.path ≡ some origin
    → own_advert inner.fed.self_id a.path origin ≡ false
    → last b.path ≡ some origin
    → b.issi ≡ a.issi
    → b.seq ≤ a.seq
    → let after = accept_all (accept_em inner source a now).0 xs in
      accept_em after again b later ≡ (after, [])
accept_em_once inner source again a b xs now later origin la oa lb i s =
    let first = (accept_em inner source a now).0 in
    let h =
      accept_all-still_heard first xs (origin, a.issi) a.seq
        (accept_em-heard inner source a now origin la oa) in
    accept_em-silent (accept_all first xs) again b later origin lb
      (heard_older (accept_all first xs) (origin, b.issi) b.seq a.seq s (rw i h))

-- Whether the advert has crossed a neighbour.
abbrev pub crosses : List ℕ → Option ℕ → Bool
crosses path none = false
crosses path (some n) = contains path n

-- Where a relayed packet goes: to links that announced support, not to the one it came over, and
-- to no neighbour on the advert's path.
abbrev pub Forward : Inner → ClientId → List ℕ → List ClientId → Send → Type 0
Forward inner source path links s =
    (contains links s.0 ≡ true)
    × (s.0 ≢ source)
    × (crosses path (lookup s.0 inner.fed.links) ≡ false)

All-mono {ℓ} :
    {A : Type ℓ} (P Q : A → Type 0) (xs : List A) → ((x : A) → P x → Q x) → All P xs → All Q xs
All-mono P Q [] f a = tt
All-mono P Q (x ∷ xs) f (h, hs) = (f x h, All-mono P Q xs f hs)

gets-Forward :
    (inner : Inner) (source : ClientId) (path msg : List ℕ) (link : ClientId)
    (links : List ClientId)
    → gets inner (some source) path link ≡ true
    → Forward inner source path (link ∷ links) (link, msg)
unfolding contains
gets-Forward inner source path msg link links g =
    (ground (arith, nat_beq_iff link link), ground (arith, nat_beq_iff link source), ground arith)

send_to-Forward :
    (inner : Inner) (source : ClientId) (path msg : List ℕ) (links : List ClientId)
    → All (Forward inner source path links) (send_to inner (some source) path msg links)
unfolding send_to
send_to-Forward inner source path msg [] = tt
send_to-Forward inner source path msg (link ∷ links) =
    let rest =
      All-mono (Forward inner source path links) (Forward inner source path (link ∷ links))
        (send_to inner (some source) path msg links)
        (λ s f. (unfold contains in ground (arith, f.0), f.1, f.2))
        (send_to-Forward inner source path msg links) in
    elim (Bool-cases (gets inner (some source) path link)) [
      | inl g ↦ rw g (gets-Forward inner source path msg link links g, rest)
      | inr n ↦ rw n rest
    ]

-- An alarm is relayed only to links that announced emergencies, never back over the link it came
-- from and never to a server that it has crossed.
pub relay_em-Forward :
    (inner : Inner) (source : ClientId) (a : EmAdvert)
    → All (Forward inner source a.path inner.fed.em_links) (relay_em inner (some source) a)
unfolding relay_em
relay_em-Forward inner source a = elim (Bool-cases (leb max_path (length a.path))) [
  | inl full ↦ rw (full, relay_em) tt
  | inr room ↦ rw (room, relay_em) (send_to-Forward inner source a.path _ inner.fed.em_links)
]
