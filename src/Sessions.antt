-- ===== src/Sessions.antt =====
-- core/session.py: the sessions that are tracked, over a world `W` that the callback of
-- `SessionManager` acts on. `now` is what `time.time()` reads during the call, and `fresh` is
-- `str(uuid.uuid4())`.
pub mod Stale
use kv_cache_tier_persistenc.Prelude.{
  ℕ, ◌+◌, String, Bool, true, false, ◌&&◌, Option, none, some, List, [], ◌∷◌, str_eq, ltb,
  if◌then◌else◌, length,
}
use kv_cache_tier_persistenc.Exec.{Exec, pure, gets, modify, ◌>>=◌, ◌>>◌}
use kv_cache_tier_persistenc.Dict
use kv_cache_tier_persistenc.Dict.{Dict}

pub record SessionInfo : Type 0 where
  pub session_id : String
  pub user_id : String
  pub started_at : ℕ
  pub last_active : ℕ
  pub token_count : ℕ
  pub is_active : Bool

pub record SessionManager (W : Type 0) : Type 0 where
  pub sessions : Dict SessionInfo
  pub world : W

-- `existing_session_id or str(uuid.uuid4())`
abbrev pub id_or : Option String → String → String
id_or none fresh = fresh
id_or (some sid) fresh = if str_eq sid "" then fresh else sid

abbrev pub new_info : String → String → ℕ → SessionInfo
new_info sid user_id now = record {
  session_id = sid;
  user_id = user_id;
  started_at = now;
  last_active = now;
  token_count = 0;
  is_active = true;
}

-- the fields that a resumed, an ended and an updated session get
abbrev pub resumed : ℕ → SessionInfo → SessionInfo
resumed now i = record i { last_active = now; is_active = true }

abbrev pub ended : ℕ → SessionInfo → SessionInfo
ended now i = record i { last_active = now; is_active = false }

abbrev pub updated : ℕ → ℕ → SessionInfo → SessionInfo
updated new_tokens now i = record i { token_count = i.token_count + new_tokens; last_active = now }

unfoldable pub start_session :
    Dict SessionInfo → String → Option String → String → ℕ → String × Dict SessionInfo
start_session sessions user_id existing fresh now =
    let sid = id_or existing fresh in
    if Dict.contains sessions sid
    then (sid, Dict.adjust sessions sid (resumed now))
    else (sid, Dict.put sessions sid (new_info sid user_id now))

unfoldable pub update_session : Dict SessionInfo → String → ℕ → ℕ → Dict SessionInfo
update_session sessions sid new_tokens now = Dict.adjust sessions sid (updated new_tokens now)

unfoldable pub active_sessions : Dict SessionInfo → List SessionInfo
active_sessions [] = []
active_sessions ((k, i) ∷ sessions) =
    let rest = active_sessions sessions in if i.is_active then i ∷ rest else rest

-- `info.is_active and (now - info.last_active) > timeout_seconds`
abbrev pub is_stale : ℕ → ℕ → SessionInfo → Bool
is_stale timeout now i = i.is_active && ltb (i.last_active + timeout) now

unfoldable pub stale_ids : ℕ → ℕ → Dict SessionInfo → List String
stale_ids timeout now [] = []
stale_ids timeout now ((k, i) ∷ sessions) =
    let rest = stale_ids timeout now sessions in if is_stale timeout now i then k ∷ rest else rest

-- An action on the world, as one on the session manager.
unfoldable pub on_world : {W A : Type 0} → Exec W A → Exec (SessionManager W) A
on_world x s = let (r, w) = x s.world in (r, record s { world = w })

module _ {W : Type 0} (on_session_end : Option (String → SessionInfo → Exec W (Unit {0}))) where
  unfoldable pub notify : String → SessionInfo → Exec (SessionManager W) (Unit {0})
  notify sid info = elim on_session_end [
    | none ↦ pure tt
    | some callback ↦ on_world (callback sid info)
  ]

  end_found : ℕ → String → Option SessionInfo → Exec (SessionManager W) (Unit {0})
  end_found now sid none = pure tt
  end_found now sid (some info) = do
    modify (λ s. record s { sessions = Dict.adjust s.sessions sid (ended now) })
    notify sid (ended now info)

  unfoldable pub end_session : ℕ → String → Exec (SessionManager W) (Unit {0})
  unfolding end_found notify
  end_session now sid = do info ← gets (λ s. Dict.get s.sessions sid); end_found now sid info

  unfoldable pub end_all : ℕ → List String → Exec (SessionManager W) (Unit {0})
  end_all now [] = pure tt
  end_all now (sid ∷ sids) = do end_session now sid; end_all now sids

  unfoldable pub cleanup_stale : ℕ → ℕ → Exec (SessionManager W) ℕ
  unfolding end_all stale_ids
  cleanup_stale timeout now = do
    sids ← gets (λ s. stale_ids timeout now s.sessions)
    end_all now sids
    pure (length sids)
