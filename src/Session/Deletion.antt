-- ===== src/Session/Deletion.antt =====
-- core/session.go: DeleteSession.
use echo_client.Prelude.{
  contains, String, true, false, not, ◌&&◌, ◌≡◌, refl, sym, ap, ◌∙◌, ◌≢◌, ◌⊎◌, inl, inr, none, some,
  List, [], ◌∷◌, ◌==◌, arith, if◌then◌else◌, Bool-cases, eq_iff, ==_self,
}
use echo_client.Prelude.Text.{trim_space}
use echo_client.Prelude.Dict.{Dict, get, put, delete, get-delete, get-delete_self, get-delete_ne}
use echo_client.Session.{Session}
use echo_client.Session.Manager.{
  SessionManager, cannot_delete_active, not_found, Result, ok, err, text_or_empty, sessions_of,
}
use echo_client.Session.Registry.{
  has_agent_session_reference, without_first, forget_name, remove_session, delete_session,
}
use echo_client.Session.Invariant.{Once, Inv, sessions_of-put, save_locked-Inv}
use echo_client.Session.Switching.{save_locked-SameMemory}

-- Removing the first occurrence from a list that has the id once removes it.
pub contains-without_first :
    (x y : String) (l : List String)
    → Once l
    → contains y (without_first x l) ≡ (contains y l && not (x == y))
unfolding without_first
contains-without_first x y [] o = refl
contains-without_first x y (z ∷ l) o =
    ground (arith, contains-without_first x y l o.1, eq_iff z x, eq_iff z y, eq_iff x y)

pub without_first-Once : (x : String) (l : List String) → Once l → Once (without_first x l)
unfolding without_first
without_first-Once x [] o = tt
without_first-Once x (z ∷ l) o =
    ground (arith, without_first-Once x l o.1, contains-without_first x z l o.1)

module _ (sm : SessionManager) (v : Inv sm) (user_key session_id : String)
    (idle : text_or_empty (get user_key sm.active_session) ≢ session_id)
    (listed : contains session_id (sessions_of sm user_key) ≡ true) (names : Dict String) where
  -- The manager in memory, with whatever becomes of the names.
  abbrev removed : SessionManager
  removed = record sm {
    sessions = delete session_id sm.sessions;
    user_sessions =
        put user_key (without_first session_id (sessions_of sm user_key)) sm.user_sessions;
    session_names = names;
  }

  removed_list :
      (u sid : String)
      → contains sid (sessions_of removed u)
        ≡ (contains sid (sessions_of sm u) && not (session_id == sid))
  removed_list u sid = elim (Bool-cases (user_key == u)) [
    | inl same ↦ rw (
      sessions_of-put user_key u (without_first session_id (sessions_of sm user_key))
          sm.user_sessions,
      same,
      contains-without_first session_id sid (sessions_of sm user_key) (v.once user_key),
      (eq_iff user_key u).0 same,
    )
    | inr other ↦
        rw
          (
            sessions_of-put user_key u (without_first session_id (sessions_of sm user_key))
                sm.user_sessions,
            other,
          )
          (ground
            (arith, eq_iff session_id sid, eq_iff user_key u, v.disjoint user_key u session_id))
  ]

  removed-Once : (u : String) → Once (sessions_of removed u)
  removed-Once u = elim (Bool-cases (user_key == u)) [
    | inl same ↦
        rw
          (
            sessions_of-put user_key u (without_first session_id (sessions_of sm user_key))
                sm.user_sessions,
            same,
          )
          (without_first-Once session_id (sessions_of sm user_key) (v.once user_key))
    | inr other ↦
        rw
          (
            sessions_of-put user_key u (without_first session_id (sessions_of sm user_key))
                sm.user_sessions,
            other,
          )
          (v.once u)
  ]

  removed_active :
      (u sid : String)
      → get u sm.active_session ≡ some sid
      → contains sid (sessions_of removed u) ≡ true
  removed_active u sid e = elim (Bool-cases (session_id == sid)) [
    | inr other ↦ ground (arith, removed_list u sid, v.active u sid)
    | inl same ↦
        let at : session_id ≡ sid = (eq_iff session_id sid).0 same in
        let mine : user_key ≡ u =
          v.disjoint user_key u session_id listed (rw at (v.active u sid e)) in
        absurd (
          idle
            (ap (λ k. text_or_empty (get k sm.active_session)) mine ∙ ap text_or_empty e ∙ sym at))
  ]

  removed-Inv : Inv removed
  removed-Inv = record {
    own_id = λ sid s e.
        ground
          (arith, get-delete session_id sid sm.sessions, v.own_id sid s, eq_iff session_id sid);
    numbered = λ sid s e.
        v.numbered sid s
          (ground (arith, get-delete session_id sid sm.sessions, eq_iff session_id sid));
    listed = λ u sid e.
        let old : contains sid (sessions_of sm u) ≡ true = ground (arith, removed_list u sid) in
        let (s, found) = v.listed u sid old in
        (
          s,
          ground (
            arith,
            removed_list u sid,
            get-delete session_id sid sm.sessions,
            eq_iff session_id sid,
          ),
        );
    once = removed-Once;
    disjoint = λ u w sid e f.
        v.disjoint u w sid (ground (arith, removed_list u sid))
          (ground (arith, removed_list w sid));
    active = removed_active;
  }

-- An agent session that a session of the map refers to is found.
referenced :
    (sid : String) (t : Session) (m : Dict Session)
    → get sid m ≡ some t
    → has_agent_session_reference (trim_space t.agent_session_id) m ≡ true
unfolding has_agent_session_reference get
referenced sid t [] e = cc
referenced sid t ((i, s) ∷ m) e = elim (Bool-cases (i == sid)) [
  | inl here ↦
      let same : s ≡ t = ground arith in
      rw
        (
          ap (λ (x : Session). trim_space x.agent_session_id) same,
          ==_self (trim_space t.agent_session_id),
        )
        refl
  | inr there ↦ ground (arith, referenced sid t m)
]

-- No session that is left loses its custom name.
forget_name-kept :
    (agent sid : String) (t : Session) (m : Dict Session) (names : Dict String)
    → get sid m ≡ some t
    → get (trim_space t.agent_session_id) (forget_name agent m names)
      ≡ get (trim_space t.agent_session_id) names
unfolding forget_name
forget_name-kept agent sid t m names e =
    let r = referenced sid t m e in
    elim (Bool-cases (agent == trim_space t.agent_session_id)) [
      | inl same ↦
          rw ((eq_iff agent (trim_space t.agent_session_id)).0 same, r)
            (closed (trim_space t.agent_session_id))
      | inr other ↦ ground (arith, get-delete agent (trim_space t.agent_session_id) names)
    ]
  where
    closed :
        (k : String)
        → get k (if not (k == "") && not true then delete k names else names) ≡ get k names
    closed k = ground arith

abbrev pub Deletes : SessionManager → String → String → SessionManager × Result Session → Type 0
Deletes sm user_key session_id r =
    ((r ≡ (sm, err cannot_delete_active))
      × (text_or_empty (get user_key sm.active_session) ≡ session_id))
    ⊎ (((r ≡ (sm, err not_found)) × (contains session_id (sessions_of sm user_key) ≡ false))
        ⊎ ((s : Session) × (r.1 ≡ ok s)
            × (get session_id sm.sessions ≡ some s)
            × (get session_id r.0.sessions ≡ none)
            × ((other : String)
                → session_id ≢ other
                → get other r.0.sessions ≡ get other sm.sessions)
            × (r.0.active_session ≡ sm.active_session)
            × ((sid : String) (t : Session)
                → get sid r.0.sessions ≡ some t
                → get (trim_space t.agent_session_id) r.0.session_names
                  ≡ get (trim_space t.agent_session_id) sm.session_names)
            × Inv r.0))

module _ (sm : SessionManager) (v : Inv sm) (user_key session_id : String) where
  deleted :
      (s : Session)
      → text_or_empty (get user_key sm.active_session) ≢ session_id
      → contains session_id (sessions_of sm user_key) ≡ true
      → get session_id sm.sessions ≡ some s
      → Deletes sm user_key session_id (remove_session sm user_key session_id s, ok s)
  unfolding remove_session
  deleted s idle listed e =
      let agent = trim_space s.agent_session_id in
      let sessions = delete session_id sm.sessions in
      let names = forget_name agent sessions sm.session_names in
      let m = removed sm v user_key session_id idle listed names in
      let same = save_locked-SameMemory m in
      inr (
        inr (
          s,
          refl,
          e,
          ap (get session_id) same.sessions ∙ get-delete_self session_id sm.sessions,
          (λ other ne.
              ap (get other) same.sessions ∙ get-delete_ne session_id other sm.sessions ne),
          same.active,
          (λ sid t found.
              ap (get (trim_space t.agent_session_id)) same.names
              ∙ forget_name-kept agent sid t sessions sm.session_names
                  (sym (ap (get sid) same.sessions) ∙ found)),
          save_locked-Inv m (removed-Inv sm v user_key session_id idle listed names),
        ))

  refuses_active :
      (text_or_empty (get user_key sm.active_session) == session_id) ≡ true
      → delete_session sm user_key session_id ≡ (sm, err cannot_delete_active)
  unfolding delete_session
  refuses_active act = rw (act, delete_session) refl

  refuses_unlisted :
      (text_or_empty (get user_key sm.active_session) == session_id) ≡ false
      → contains session_id (sessions_of sm user_key) ≡ false
      → delete_session sm user_key session_id ≡ (sm, err not_found)
  unfolding delete_session
  refuses_unlisted idle missing = rw (idle, missing, delete_session) refl

  removes :
      (s : Session)
      → (text_or_empty (get user_key sm.active_session) == session_id) ≡ false
      → contains session_id (sessions_of sm user_key) ≡ true
      → get session_id sm.sessions ≡ some s
      → delete_session sm user_key session_id ≡ (remove_session sm user_key session_id s, ok s)
  unfolding delete_session
  removes s idle listed found = rw (idle, listed, found, delete_session) refl

  -- A deletion refuses the active session of the user key and an id that is not in its list, and then
  -- changes nothing. Otherwise the session with the id is gone, and it is returned. Every other session,
  -- the active sessions, the custom names that a remaining session refers to, and the invariant stay. The
  -- manager satisfies the invariant.
  pub delete_session_lem : Deletes sm user_key session_id (delete_session sm user_key session_id)
  delete_session_lem =
      elim (Bool-cases (text_or_empty (get user_key sm.active_session) == session_id)) [
        | inl act ↦ rw (refuses_active act) (inl (refl, (eq_iff _ session_id).0 act))
        | inr idle ↦ elim (Bool-cases (contains session_id (sessions_of sm user_key))) [
          | inr missing ↦ rw (refuses_unlisted idle missing) (inr (inl (refl, missing)))
          | inl listed ↦
              let (s, found) = v.listed user_key session_id listed in
              let other : text_or_empty (get user_key sm.active_session) ≢ session_id = λ h.
                ground
                  (arith, eq_iff (text_or_empty (get user_key sm.active_session)) session_id) in
              rw (removes s idle listed found) (deleted s other listed found)
        ]
      ]
