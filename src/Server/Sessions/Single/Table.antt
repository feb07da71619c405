-- ===== src/Server/Sessions/Single/Table.antt =====
-- sessions.rs: the active sessions of a member, through each change of the table.
use agent_mesh.Common.{
  String, ◌≡◌, true, none, some, arith, nat_eq, string_eq, eq_iff, contains, contains-insert,
  Option-cases, inl, inr,
}
use agent_mesh.Common.Maps
use agent_mesh.Common.Maps.{Map}
use agent_mesh.Server.Sessions.{Sessions, Session, Status, session_of}
use agent_mesh.Server.Sessions.Observe.{enroll, end_session, modify}

-- An active session is the one that the table of holders names for its member, and a session's
-- member has been seen.
pub record IsSingle (s : Sessions) : Type 0 where
  pub held :
      (key : String) (a : Session)
      → session_of s key ≡ some a
      → a.status ≡ Status.active
      → Maps.get s.holders a.member ≡ some key
  pub known :
      (key : String) (a : Session) → session_of s key ≡ some a → contains s.seen a.member ≡ true

-- The invariant reads three fields.
pub like :
    {s s' : Sessions}
    → s'.sessions ≡ s.sessions
    → s'.holders ≡ s.holders
    → s'.seen ≡ s.seen
    → IsSingle s
    → IsSingle s'
like {s} {s'} one two three inv = record {
  held = λ key a. λ at live. ground (arith, inv.held key a);
  known = λ key a. λ at. ground (arith, inv.known key a);
}

pub enroll-IsSingle :
    (s : Sessions) (member session : String) (first later : Session)
    → IsSingle s
    → session_of s session ≡ none
    → first.member ≡ member
    → later.member ≡ member
    → later.status ≡ Status.pending
    → IsSingle (enroll s member session first later)
enroll-IsSingle s member session first later inv fresh one two waits = record {
  held = λ key a. λ at live. elim (Option-cases (session_of s key)) [
    | inl gone ↦ ground (
      arith,
      Maps.get-insert s.sessions session first key,
      Maps.get-insert s.sessions session later key,
      Maps.get-insert s.holders member session a.member,
      eq_iff session key,
      eq_iff member a.member,
    )
    | inr (b, there) ↦ ground (
      arith,
      inv.held key b,
      inv.known key b,
      Maps.get-insert s.sessions session first key,
      Maps.get-insert s.sessions session later key,
      Maps.get-insert s.holders member session a.member,
      eq_iff session key,
      eq_iff member a.member,
    )
  ];
  known = λ key a. λ at. elim (Option-cases (session_of s key)) [
    | inl gone ↦ ground (
      arith,
      Maps.get-insert s.sessions session first key,
      Maps.get-insert s.sessions session later key,
      contains-insert member s.seen a.member,
      eq_iff session key,
      eq_iff member a.member,
    )
    | inr (b, there) ↦ ground (
      arith,
      inv.known key b,
      Maps.get-insert s.sessions session first key,
      Maps.get-insert s.sessions session later key,
      contains-insert member s.seen a.member,
      eq_iff session key,
      eq_iff member a.member,
    )
  ];
}

-- What the table says of a key once one session has been ended.
pub end-IsSingle :
    (s : Sessions) (session : String)
    → IsSingle s
    → IsSingle (record s { sessions = modify s.sessions session end_session })
end-IsSingle s session inv = elim (Option-cases (session_of s session)) [
  | inl gone ↦ record {
    held = λ key a. λ at live. ground (arith, inv.held key a);
    known = λ key a. λ at. ground (arith, inv.known key a);
  }
  | inr (old, there) ↦ record {
    held = λ key a. λ at live. ground (
      arith,
      inv.held key a,
      Maps.get-insert s.sessions session (end_session old) key,
      eq_iff session key,
    );
    known = λ key a. λ at. ground (
      arith,
      inv.known key a,
      inv.known key old,
      Maps.get-insert s.sessions session (end_session old) key,
      eq_iff session key,
    );
  }
]

pub renewed-IsSingle :
    (s : Sessions) (session : String) (old new : Session)
    → IsSingle s
    → session_of s session ≡ some old
    → new.member ≡ old.member
    → new.status ≡ old.status
    → IsSingle (record s { sessions = Maps.insert s.sessions session new })
renewed-IsSingle s session old new inv there one two = record {
  held = λ key a. λ at live. ground (
    arith,
    inv.held key a,
    inv.held key old,
    Maps.get-insert s.sessions session new key,
    eq_iff session key,
  );
  known = λ key a. λ at. ground (
    arith,
    inv.known key a,
    inv.known key old,
    Maps.get-insert s.sessions session new key,
    eq_iff session key,
  );
}

-- The hand-over itself: the old session ends, and the new one is active and holds their member.
pub over-IsSingle :
    (s : Sessions) (from to : String) (f t new : Session)
    → IsSingle s
    → session_of s from ≡ some f
    → session_of s to ≡ some t
    → t.member ≡ f.member
    → Maps.get s.holders f.member ≡ some from
    → new.member ≡ t.member
    → IsSingle (record s {
      sessions = Maps.insert (Maps.insert s.sessions from (end_session f)) to new;
      holders = Maps.insert s.holders t.member to;
    })
over-IsSingle s from to f t new inv from_there to_there one_member holder same = record {
  held = λ key a. λ at live. ground (
    arith,
    inv.held key a,
    Maps.get-insert (Maps.insert s.sessions from (end_session f)) to new key,
    Maps.get-insert s.sessions from (end_session f) key,
    Maps.get-insert s.holders t.member to a.member,
    eq_iff from key,
    eq_iff to key,
    eq_iff t.member a.member,
  );
  known = λ key a. λ at. ground (
    arith,
    inv.known key a,
    inv.known to t,
    inv.known from f,
    Maps.get-insert (Maps.insert s.sessions from (end_session f)) to new key,
    Maps.get-insert s.sessions from (end_session f) key,
    eq_iff from key,
    eq_iff to key,
  );
}
