-- ===== src/Delegated/Reads/Roots.antt =====
-- Revocation: which root states let a read through.
use svpchain_research_agent.Base.{
  ◌≡◌, refl, ap, subst, ◌∙◌, ◌⊎◌, ◌↔◌, inl, inr, true, false, List, [], ◌∷◌, Option, none, some, ok,
  Bytes, arith, All, lookup, insert, Bool-cases, ltb_ℤ, sub64, ◌==◌, nat_eq, bytes_eq,
}
use svpchain_research_agent.Base.Results.{Result-cases}
use svpchain_research_agent.Svpdt.{Verified}
use svpchain_research_agent.Delegated.{Deps, Service, RootState, EpochEntry}
use svpchain_research_agent.Delegated.Reads.{root_entry, fetch_entry, judge_entry, check_root_state}

module _ {W O X : Type 0} (d : Deps W O X) where
  -- The chain answers, in the world `w`, that the root is not paused and stands at the epoch that
  -- the credential was minted for.
  abbrev pub IsGood : Verified O → W → Type 0
  IsGood v w = (d.query_epoch v.root w).0 ≡ ok (record { epoch = v.root_epoch; paused = false })

  -- `past` holds of the worlds that the process has queried the chain in.
  module _ (past : W → Type 0) where
    -- The chain answered this of the root in such a world, and the clock then read its stamp.
    pub record IsAnswer (entry : Bytes × EpochEntry) : Type 0 where
      pub at : W
      pub is_past : past at
      pub answered :
          (d.query_epoch entry.0 at).0
          ≡ ok (record { epoch = entry.1.epoch; paused = entry.1.paused })
      pub stamp : entry.1.fetched ≡ (d.now (d.query_epoch entry.0 at).1).0

    -- Every entry of the cache is such an answer.
    abbrev pub IsGenuine : Service W → Type 0
    IsGenuine s = All IsAnswer s.epoch_cache

    -- The root is good by the chain's answer now, or by one that the process was given less than
    -- the cache's lifetime ago, counted by the clock from just after that answer to now.
    abbrev pub IsCurrent : Service W → Verified O → Type 0
    IsCurrent s v =
        IsGood v s.world
        ⊎ IsGood v (d.now s.world).1
        ⊎ ((w : W) × past w
            × IsGood v w
            × (ltb_ℤ (sub64 (d.now s.world).0 (d.now (d.query_epoch v.root w).1).0)
                  s.epoch_cache_ttl
                ≡ true))

    insert-All :
        (root : Bytes) (e : EpochEntry) (m : List (Bytes × EpochEntry))
        → IsAnswer (root, e)
        → All IsAnswer m
        → All IsAnswer (insert root e m)
    unfolding insert
    insert-All root e [] a h = (a, tt)
    insert-All root e ((r, f) ∷ m) a (b, h) = elim (Bool-cases (r == root)) [
      | inl same ↦ rw (same, insert) (a, h)
      | inr other ↦ rw (other, insert) (b, insert-All root e m a h)
    ]

    lookup-All :
        (root : Bytes) (e : EpochEntry) (m : List (Bytes × EpochEntry))
        → All IsAnswer m
        → lookup root m ≡ some e
        → IsAnswer (root, e)
    unfolding lookup
    lookup-All root e [] h q = cc
    lookup-All root e ((r, f) ∷ m) (a, h) q = elim (Bool-cases (r == root)) [
      | inl same ↦
          let found : (r, f) ≡ (root, e) = ground (arith, (bytes_eq.eqb_iff r root).0 same) in
          subst IsAnswer found a
      | inr other ↦ lookup-All root e m h (ground arith)
    ]

    stamped : Service W → Bytes → RootState → EpochEntry
    stamped s root resp = record {
      epoch = resp.epoch;
      paused = resp.paused;
      fetched = (d.now (d.query_epoch root s.world).1).0;
    }

    fetch_entry-IsGenuine :
        (s : Service W) (root : Bytes)
        → past s.world
        → IsGenuine s
        → IsGenuine (fetch_entry d root s).1
    unfolding fetch_entry stamped
    fetch_entry-IsGenuine s root here g = elim (Result-cases (d.query_epoch root s.world).0) [
      | inr (e, q) ↦
          let kept : (fetch_entry d root s).1.epoch_cache ≡ s.epoch_cache = ground arith in
          rw kept g
      | inl (resp, q) ↦
          let stored : (fetch_entry d root s).1.epoch_cache
              ≡ insert root (stamped s root resp) s.epoch_cache =
            ground arith in
          let answer : IsAnswer (root, stamped s root resp) = record {
            at = s.world;
            is_past = here;
            answered = q;
            stamp = refl;
          } in
          rw stored (insert-All root (stamped s root resp) s.epoch_cache answer g)
    ]

    root_entry-IsGenuine :
        (s : Service W) (root : Bytes)
        → past s.world
        → past (d.now s.world).1
        → IsGenuine s
        → (o : Option EpochEntry) → IsGenuine (root_entry d root o s).1
    unfolding root_entry
    root_entry-IsGenuine s root here next g none = fetch_entry-IsGenuine s root here g
    root_entry-IsGenuine s root here next g (some f) =
        elim (Bool-cases (ltb_ℤ (sub64 (d.now s.world).0 f.fetched) s.epoch_cache_ttl)) [
          | inl fresh ↦ rw (fresh, root_entry) g
          | inr stale ↦
              rw (stale, root_entry)
                (fetch_entry-IsGenuine (record s { world = (d.now s.world).1 }) root next g)
        ]

  judge_entry_iff :
      (e : EpochEntry) (v : Verified O)
      → (judge_entry d e v ≡ ok tt) ↔ ((e.paused ≡ false) × (e.epoch ≡ v.root_epoch))
  unfolding judge_entry
  judge_entry_iff e v = (λ h. ground arith, λ h. ground arith)

  abbrev state_of : EpochEntry → RootState
  state_of e = record { epoch = e.epoch; paused = e.paused }

  abbrev good_state : Verified O → RootState
  good_state v = record { epoch = v.root_epoch; paused = false }

  judged : (e : EpochEntry) (v : Verified O) → judge_entry d e v ≡ ok tt → state_of e ≡ good_state v
  judged e v h = let (p, k) = (judge_entry_iff e v).0 h in ground (arith, p, k)

  fetch_entry-answer :
      (s : Service W) (root : Bytes) (e : EpochEntry)
      → (fetch_entry d root s).0 ≡ ok e
      → (d.query_epoch root s.world).0 ≡ ok (record { epoch = e.epoch; paused = e.paused })
  unfolding fetch_entry
  fetch_entry-answer s root e h = elim (Result-cases (d.query_epoch root s.world).0) [
    | inr (x, q) ↦ absurd (ground arith)
    | inl (resp, q) ↦ ground arith
  ]

  module _ (past : W → Type 0) where
    judged-IsCurrent :
        (s : Service W) (v : Verified O) (o : Option EpochEntry) (e : EpochEntry)
        → IsGenuine past s
        → lookup v.root s.epoch_cache ≡ o
        → (root_entry d v.root o s).0 ≡ ok e
        → state_of e ≡ good_state v
        → IsCurrent past s v
    unfolding root_entry
    judged-IsCurrent s v none e g c h good = inl (fetch_entry-answer s v.root e h ∙ ap ok good)
    judged-IsCurrent s v (some f) e g c h good =
        elim (Bool-cases (ltb_ℤ (sub64 (d.now s.world).0 f.fetched) s.epoch_cache_ttl)) [
          | inl fresh ↦
              let same : f ≡ e = ground arith in
              let found = lookup-All past v.root f s.epoch_cache g c in
              let is_good : IsGood v found.at = found.answered ∙ ap ok (ap state_of same ∙ good) in
              inr (inr (found.at, found.is_past, is_good, rw (← found.stamp) fresh))
          | inr stale ↦ inr (
              inl (
                fetch_entry-answer (record s { world = (d.now s.world).1 }) v.root e (ground arith)
                ∙ ap ok good))
        ]

    -- A check of a root keeps the cache genuine: where every cached entry is an answer that the
    -- chain gave of its root in a past world, stamped with the time just after it, every entry is
    -- one afterwards, whether or not the check passed, if the worlds that the check itself asks in
    -- count as past.
    pub check_root_state-IsGenuine :
        (s : Service W) (v : Verified O)
        → past s.world
        → past (d.now s.world).1
        → IsGenuine past s
        → IsGenuine past (check_root_state d v s).1
    unfolding check_root_state
    check_root_state-IsGenuine s v here next g =
        let kept = root_entry-IsGenuine past s v.root here next g (lookup v.root s.epoch_cache) in
        let same : (check_root_state d v s).1.epoch_cache
            ≡ (root_entry d v.root (lookup v.root s.epoch_cache) s).1.epoch_cache =
          ground arith in
        rw same kept

    -- Where the cache is genuine, a check that passes rests on an answer of the chain that the root
    -- is not paused and stands at the credential's epoch: one that the chain gives in the state at
    -- hand, or one that it gave in a past world less than the cache's lifetime ago.
    pub check_root_state-IsCurrent :
        (s : Service W) (v : Verified O)
        → IsGenuine past s
        → (check_root_state d v s).0 ≡ ok tt
        → IsCurrent past s v
    unfolding check_root_state
    check_root_state-IsCurrent s v g h =
        elim (Result-cases (root_entry d v.root (lookup v.root s.epoch_cache) s).0) [
          | inr (x, q) ↦ absurd (ground arith)
          | inl (e, q) ↦
              judged-IsCurrent s v (lookup v.root s.epoch_cache) e g refl q
                (judged e v (ground arith))
        ]

  -- Where the cached answer on a credential's root has run out, a check that passes rests on the
  -- answer that the chain gives now: not paused, and at the credential's epoch.
  pub check_root_state_stale :
      (s : Service W) (v : Verified O) (f : EpochEntry)
      → lookup v.root s.epoch_cache ≡ some f
      → ltb_ℤ (sub64 (d.now s.world).0 f.fetched) s.epoch_cache_ttl ≡ false
      → (check_root_state d v s).0 ≡ ok tt
      → (d.query_epoch v.root (d.now s.world).1).0
        ≡ ok (record { epoch = v.root_epoch; paused = false })
  unfolding check_root_state root_entry fetch_entry judge_entry
  check_root_state_stale s v f c stale h =
      elim (Result-cases (d.query_epoch v.root (d.now s.world).1).0) [
        | inr (x, q) ↦ absurd (ground arith)
        | inl (resp, q) ↦ ground arith
      ]

  pub check_root_state-sent :
      (s : Service W) (v : Verified O) → (check_root_state d v s).1.sent ≡ s.sent
  unfolding check_root_state root_entry fetch_entry
  check_root_state-sent s v = ground arith
