-- ===== src/Session/Switching.antt =====
-- Creating, selecting and renaming sessions: what each call answers, and that the invariant stays.
use echo_client.Prelude.{
  contains, String, true, not, ◌||◌, ◌≡◌, refl, ap, ◌∙◌, ◌≢◌, ◌⊎◌, inl, inr, none, some, List, [],
  ◌∷◌, ◌==◌, arith, Bool-cases, Option-cases, eq_iff, ==_self,
}
use mathlib.Core.Path.{subst, ap₂}
use echo_client.Prelude.Dict.{Dict, get, put, get-put, get-put_self, get-put_ne}
use echo_client.Session.{Session}
use echo_client.Session.Manager.{
  SessionManager, Result, ok, err, not_found, sessions_of, save_locked, session_at, active_of,
  find_target, switch_session,
}
use echo_client.Session.Invariant.{Inv, save_locked-Inv}

-- A save changes nothing but the file.
pub record SameMemory (sm sm' : SessionManager) : Type 0 where
  pub sessions : sm'.sessions ≡ sm.sessions
  pub active : sm'.active_session ≡ sm.active_session
  pub lists : sm'.user_sessions ≡ sm.user_sessions
  pub names : sm'.session_names ≡ sm.session_names
  pub counter : sm'.counter ≡ sm.counter

pub save_locked-SameMemory : (sm : SessionManager) → SameMemory sm (save_locked sm)
unfolding save_locked
save_locked-SameMemory sm = elim (Bool-cases (sm.store_path == "" || not sm.disk_ok)) [
  | inl e ↦
      rw e (record { sessions = refl; active = refl; lists = refl; names = refl; counter = refl })
  | inr e ↦
      rw e (record { sessions = refl; active = refl; lists = refl; names = refl; counter = refl })
]

-- A session written over by one with its id.
pub update-Inv :
    (sm : SessionManager) (id : String) (s s' : Session)
    → Inv sm
    → get id sm.sessions ≡ some s
    → s'.id ≡ s.id
    → Inv (record sm { sessions = put id s' sm.sessions })
update-Inv sm id s s' v e same = record {
  own_id = λ sid t f.
      ground (arith, get-put id sid s' sm.sessions, v.own_id sid t, v.own_id id s, eq_iff id sid);
  numbered = λ sid t f. elim (Bool-cases (id == sid)) [
    | inl here ↦ v.numbered sid s (ground (arith, eq_iff id sid))
    | inr there ↦ v.numbered sid t (ground (arith, get-put id sid s' sm.sessions))
  ];
  listed = λ u sid f. elim (Bool-cases (id == sid)) [
    | inl here ↦ (s', ground (arith, get-put id sid s' sm.sessions))
    | inr there ↦
        let (t, found) = v.listed u sid f in (t, ground (arith, get-put id sid s' sm.sessions))
  ];
  once = v.once;
  disjoint = v.disjoint;
  active = v.active;
}

-- What the loop of SwitchSession finds.
pub find_target-found :
    (sessions : Dict Session) (target : String) (l : List String) (s : Session)
    → find_target sessions target l ≡ some s
    → (sid : String) × (contains sid l ≡ true)
      × (get sid sessions ≡ some s)
      × ((s.id ≡ target) ⊎ (s.name ≡ target))
unfolding find_target
find_target-found sessions target [] s e = cc
find_target-found sessions target (sid ∷ l) s e = elim (Option-cases (get sid sessions)) [
  | inl gone ↦ next (find_target-found sessions target l s (ground arith))
  | inr (t, found) ↦ elim (Bool-cases (t.id == target || t.name == target)) [
    | inr miss ↦ next (find_target-found sessions target l s (ground arith))
    | inl hit ↦
        let same : t ≡ s = ground arith in
        (sid, ground (arith, ==_self sid), found ∙ ap some same, matches t hit same)
  ]
]
  where
    next :
        (x : String) × (contains x l ≡ true)
          × (get x sessions ≡ some s)
          × ((s.id ≡ target) ⊎ (s.name ≡ target))
        → (x : String) × (contains x (sid ∷ l) ≡ true)
          × (get x sessions ≡ some s)
          × ((s.id ≡ target) ⊎ (s.name ≡ target))
    next (x, listed, found, m) = (x, ground arith, found, m)

    matches :
        (t : Session)
        → (t.id == target || t.name == target) ≡ true
        → t ≡ s
        → (s.id ≡ target) ⊎ (s.name ≡ target)
    matches t hit same =
        subst (λ (r : Session). (r.id ≡ target) ⊎ (r.name ≡ target)) same
          (elim (Bool-cases (t.id == target)) [
            | inl i ↦ inl ((eq_iff t.id target).0 i)
            | inr other ↦ inr (ground (arith, eq_iff t.name target))
          ])

-- Where it finds nothing, no listed session has the id or the name.
pub find_target-none :
    (sessions : Dict Session) (target : String) (l : List String)
    → find_target sessions target l ≡ none
    → (sid : String) (s : Session) → contains sid l ≡ true
    → get sid sessions ≡ some s
    → (s.id ≢ target) × (s.name ≢ target)
unfolding find_target
find_target-none sessions target [] e sid s c found = cc
find_target-none sessions target (x ∷ l) e sid s c found =
    let ih = find_target-none sessions target l (ground arith) sid s in
    (
      λ h. ground (arith, eq_iff x sid, eq_iff s.id target, ih),
      λ h. ground (arith, eq_iff x sid, eq_iff s.name target, ih),
    )

pub active_of-SameMemory :
    (sm sm' : SessionManager) (u : String) → SameMemory sm sm' → active_of sm' u ≡ active_of sm u
unfolding active_of
active_of-SameMemory sm sm' u same = ap₂ (λ m a. session_at m (get u a)) same.sessions same.active

module _ (sm : SessionManager) (v : Inv sm) (user_key : String) where
  pub select-Inv :
      (s : Session) (sid : String)
      → contains sid (sessions_of sm user_key) ≡ true
      → get sid sm.sessions ≡ some s
      → Inv (record sm { active_session = put user_key s.id sm.active_session })
  select-Inv s sid listed e = record {
    own_id = v.own_id;
    numbered = v.numbered;
    listed = v.listed;
    once = v.once;
    disjoint = v.disjoint;
    active = λ u x f. ground (
      arith,
      get-put user_key u s.id sm.active_session,
      v.active u x,
      v.own_id sid s,
      eq_iff user_key u,
    );
  }

-- The active session of every user key but one.
abbrev pub OthersKeep : SessionManager → SessionManager → String → Type 0
OthersKeep sm sm' user_key = (u : String) → user_key ≢ u → active_of sm' u ≡ active_of sm u

abbrev pub Switches : SessionManager → String → String → SessionManager × Result Session → Type 0
Switches sm user_key target r =
    ((r ≡ (sm, err not_found))
      × ((sid : String) (s : Session)
          → contains sid (sessions_of sm user_key) ≡ true
          → get sid sm.sessions ≡ some s
          → (s.id ≢ target) × (s.name ≢ target)))
    ⊎ ((s : Session) × (r.1 ≡ ok s)
        × ((s.id ≡ target) ⊎ (s.name ≡ target))
        × (active_of r.0 user_key ≡ some s)
        × OthersKeep sm r.0 user_key
        × (r.0.sessions ≡ sm.sessions)
        × Inv r.0)

module _ (sm : SessionManager) (v : Inv sm) (user_key target : String) where
  chosen_now :
      (s : Session) (sid : String)
      → get sid sm.sessions ≡ some s
      → active_of (record sm { active_session = put user_key s.id sm.active_session }) user_key
        ≡ some s
  unfolding active_of
  chosen_now s sid found =
      rw (get-put_self user_key s.id sm.active_session)
        (ap (λ i. get i sm.sessions) (v.own_id sid s found) ∙ found)

  chosen_others :
      (s : Session) (u : String)
      → user_key ≢ u
      → active_of (record sm { active_session = put user_key s.id sm.active_session }) u
        ≡ active_of sm u
  unfolding active_of
  chosen_others s u other = rw (get-put_ne user_key u s.id sm.active_session other)

  switched :
      (s : Session)
      → find_target sm.sessions target (sessions_of sm user_key) ≡ some s
      → Switches sm user_key target (switch_session sm user_key target)
  unfolding switch_session
  switched s e =
      let (sid, listed, found, m) =
        find_target-found sm.sessions target (sessions_of sm user_key) s e in
      let chosen : SessionManager = record sm {
        active_session = put user_key s.id sm.active_session;
      } in
      let same = save_locked-SameMemory chosen in
      rw (e, switch_session)
        (inr (
          s,
          refl,
          m,
          active_of-SameMemory chosen _ user_key same ∙ chosen_now s sid found,
          (λ u other. active_of-SameMemory chosen _ u same ∙ chosen_others s u other),
          same.sessions,
          save_locked-Inv chosen (select-Inv sm v user_key s sid listed found),
        ))

  -- A switch either refuses, changing nothing, and then no session that the user key lists has the id
  -- or the name; or it returns a session with the id or the name and makes it the active one, for this
  -- user key alone, and it changes no session and keeps the invariant. The manager satisfies the
  -- invariant.
  pub switch_session_lem : Switches sm user_key target (switch_session sm user_key target)
  unfolding switch_session
  switch_session_lem =
      elim (Option-cases (find_target sm.sessions target (sessions_of sm user_key))) [
        | inl e ↦
            rw (e, switch_session)
              (inl (refl, find_target-none sm.sessions target (sessions_of sm user_key) e))
        | inr (s, e) ↦ switched s e
      ]
