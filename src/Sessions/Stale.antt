-- ===== src/Sessions/Stale.antt =====
-- core/session.py: `cleanup_stale`, with a callback on the world.
use mathlib.Core.Option
use kv_cache_tier_persistenc.Prelude.{
  ℕ, String, ◌≡◌, refl, ap, Bool, false, ◌||◌, Option, none, some, List, [], ◌∷◌, arith, str_eq,
  eq_iff, if◌then◌else◌, length,
}
use kv_cache_tier_persistenc.Result.{Result, ok, raise}
use kv_cache_tier_persistenc.Exec.{Exec, continue, pure, gets, modify, ◌>>=◌}
use kv_cache_tier_persistenc.Exec.Hoare.{
  Triple, Outcome, Triple-bind, Triple-pure, Triple-gets, Outcome-returns, Triple-returns,
}
use kv_cache_tier_persistenc.Dict
use kv_cache_tier_persistenc.Dict.{Dict}
use kv_cache_tier_persistenc.Sessions.{
  SessionInfo, SessionManager, ended, is_stale, stale_ids, on_world, notify, end_found, end_session,
  end_all, cleanup_stale,
}

-- `j` is one of the ids.
abbrev pub listed : List String → String → Bool
listed [] j = false
listed (k ∷ sids) j = str_eq k j || listed sids j

unlisted :
    (timeout now : ℕ) (d : Dict SessionInfo) (j : String)
    → Dict.get d j ≡ none
    → listed (stale_ids timeout now d) j ≡ false
unfolding stale_ids Dict.get
unlisted timeout now [] j g = refl
unlisted timeout now ((k, x) ∷ d) j g = ground (arith, unlisted timeout now d j)

listed-stale_ids :
    (timeout now : ℕ) (d : Dict SessionInfo) (j : String) (i : SessionInfo)
    → Dict.IsUnique d
    → Dict.get d j ≡ some i
    → listed (stale_ids timeout now d) j ≡ is_stale timeout now i
unfolding stale_ids Dict.get
listed-stale_ids timeout now [] j i u g = cc
listed-stale_ids timeout now ((k, x) ∷ d) j i u g =
    ground (arith, eq_iff k j, listed-stale_ids timeout now d j i u.1, unlisted timeout now d j)

-- What the cleanup makes of a session.
abbrev pub cleaned : ℕ → ℕ → SessionInfo → SessionInfo
cleaned timeout now i = if is_stale timeout now i then ended now i else i

-- The cleanup returned the number of stale sessions and ended them; the world satisfies `I`.
pub record Cleaned {W : Type 0} (I : W → Type 0) (timeout now : ℕ) (d : Dict SessionInfo)
    (r : Result ℕ × SessionManager W) : Type 0 where
  pub state : SessionManager W
  pub returned : r ≡ (ok (length (stale_ids timeout now d)), state)
  pub sessions :
      (j : String) → Dict.get state.sessions j ≡ Option.map (cleaned timeout now) (Dict.get d j)
  pub world : I state.world

module _ {W : Type 0} (I : W → Type 0) (now : ℕ) where
  -- Of the sessions `d`, those that are listed are ended.
  record Marked (d : Dict SessionInfo) (sids : List String) (s : SessionManager W) : Type 0 where
    pub world : I s.world
    pub sessions :
        (j : String)
        → Dict.get s.sessions j
          ≡ (if listed sids j then Option.map (ended now) (Dict.get d j) else Dict.get d j)

  Triple-on_world :
      (x : Exec W (Unit {0})) (Q : Dict SessionInfo → Type 0)
      → Triple I x (λ _. I) (λ _ _. ⊥)
      → Triple
          (λ s. I s.world × Q s.sessions)
          (on_world x)
          (λ _ s. I s.world × Q s.sessions)
          (λ _ _. ⊥)
  unfolding on_world
  Triple-on_world x Q t = record { at = λ s h. outcome s h.1 (x s.world) (t.at s.world h.0) }
    where
      outcome :
          (s : SessionManager W)
          → Q s.sessions
          → (r : Result (Unit {0}) × W) → Outcome (λ _. I) (λ _ _. ⊥) r
          → Outcome {S = SessionManager W}
              (λ _ s. I s.world × Q s.sessions)
              (λ _ _. ⊥)
              (r.0, record s { world = r.1 })
      outcome s q (ok u, w) k = (k, q)
      outcome s q (raise e, w) k = k

  module _ (callback : String → SessionInfo → Exec W (Unit {0}))
      (keeps : (sid : String) (i : SessionInfo)
        → Triple I (callback sid i) (λ _. I) (λ _ _. ⊥)) where
    end_session-Marked :
        (sid : String) (d : Dict SessionInfo)
        → Triple
            (λ s. I s.world × (s.sessions ≡ d))
            (end_session (some callback) now sid)
            (λ _. Marked d (sid ∷ []))
            (λ _ _. ⊥)
    unfolding end_session modify
    end_session-Marked sid d =
        Triple-bind _ _ (λ o s. I s.world × (s.sessions ≡ d) × (o ≡ Dict.get d sid))
          (Triple-gets _ (λ s h. (h.0, h.1, ap (λ x. Dict.get x sid) h.1))) found
      where
        found :
            (o : Option SessionInfo)
            → Triple
                (λ s. I s.world × (s.sessions ≡ d) × (o ≡ Dict.get d sid))
                (end_found (some callback) now sid o)
                (λ _. Marked d (sid ∷ []))
                (λ _ _. ⊥)
        found none =
            unfold end_found in
            Triple-pure tt (λ s h. record {
              world = h.0;
              sessions = λ j. ground (arith, h.1, h.2, eq_iff sid j);
            })
        found (some i) =
            unfold end_found notify in
            Triple-bind _ _ (λ _ s. I s.world × (s.sessions ≡ Dict.adjust d sid (ended now)))
              (record { at = λ s h. (h.0, ap (λ x. Dict.adjust x sid (ended now)) h.1) })
              λ _.
                Triple-returns (λ _. Marked d (sid ∷ []))
                  (λ _ s h. record {
                    world = h.0;
                    sessions = λ j. ground (arith, h.1, Dict.get-adjust d sid j (ended now));
                  })
                  (Triple-on_world (callback sid (ended now i))
                    (λ x. x ≡ Dict.adjust d sid (ended now)) (keeps sid (ended now i)))

    end_all-Marked :
        (sids : List String) (d : Dict SessionInfo)
        → Triple
            (λ s. I s.world × (s.sessions ≡ d))
            (end_all (some callback) now sids)
            (λ _. Marked d sids)
            (λ _ _. ⊥)
    unfolding end_all
    end_all-Marked [] d =
        Triple-pure tt (λ s h. record { world = h.0; sessions = λ j. ground (arith, h.1) })
    end_all-Marked (sid ∷ sids) d =
        Triple-bind _ _ (λ _. Marked d (sid ∷ [])) (end_session-Marked sid d)
          λ _. record {
            at = λ s h.
                Outcome-returns {Q = λ _. Marked s.sessions sids} (λ _ _. ⊥)
                  (λ _. Marked d (sid ∷ sids)) _
                  (λ _ t k. record {
                    world = k.world;
                    sessions = λ j. ground (arith, k.sessions j, h.sessions j);
                  })
                  ((end_all-Marked sids s.sessions).at s (h.world, refl));
          }

    -- Where the callback does not raise and keeps `I`, and each session stands once, `cleanup_stale`
    -- returns the number of stale sessions, ends them at `now`, leaves every other session as it
    -- was, and the world satisfies `I`.
    pub cleanup_stale-Cleaned :
        (timeout : ℕ) (s : SessionManager W)
        → I s.world
        → Dict.IsUnique s.sessions
        → Cleaned I timeout now s.sessions (cleanup_stale (some callback) timeout now s)
    unfolding cleanup_stale gets pure ◌>>=◌
    cleanup_stale-Cleaned timeout s h u =
        read (end_all (some callback) now sids s) ((end_all-Marked sids s.sessions).at s (h, refl))
      where
        sids : List String
        sids = stale_ids timeout now s.sessions

        read :
            (r : Result (Unit {0}) × SessionManager W)
            → Outcome (λ _. Marked s.sessions sids) (λ _ _. ⊥) r
            → Cleaned I timeout now s.sessions (continue r (λ _ t. (ok (length sids), t)))
        read (raise e, t) k = absurd k
        read (ok x, t) k = record {
          state = t;
          returned = refl;
          sessions = λ j. sessions j (Dict.get s.sessions j) refl;
          world = k.world;
        }
          where
            sessions :
                (j : String) (o : Option SessionInfo)
                → Dict.get s.sessions j ≡ o
                → Dict.get t.sessions j ≡ Option.map (cleaned timeout now) (Dict.get s.sessions j)
            sessions j none g = ground (arith, k.sessions j)
            sessions j (some i) g =
                ground (arith, k.sessions j, listed-stale_ids timeout now s.sessions j i u g)
