-- ===== src/Daemon/Attach/Agree.antt =====
-- The two maps of the daemon: when they agree, and when a client is left behind.
use wmux.Prelude.{
  ◌≡◌, refl, ◌&&◌, if◌then◌else◌, Bool, true, false, Bool-cases, inl, inr, [], ◌∷◌, none, some,
  Option-cases, Bytes, bytes_eq, bytes_eq_iff, bytes_eq_refl, Map, lookup, insert, delete, length,
  arith, lookup-insert, lookup-delete,
}
use wmux.Session.Defs.{Service}
use wmux.Daemon.Attach.{Clients, Daemon, or_new, join, leave, finish, detach_client, is_attached}

lookup-empty : (m : Clients) (k : Bytes) → length m ≡ 0 → lookup k m ≡ none
unfolding lookup
lookup-empty [] k h = refl
lookup-empty (e ∷ m) k h = ground arith

lookup-client :
    (client b : Bytes) (cs : Clients)
    → lookup b (insert client tt cs) ≡ (if bytes_eq client b then some tt else lookup b cs)
lookup-client client b cs = lookup-insert client b tt cs

lookup-set :
    (id j : Bytes) (cs : Clients) (m : Map Clients)
    → lookup j (insert id cs m) ≡ (if bytes_eq id j then some cs else lookup j m)
lookup-set id j cs m = lookup-insert id j cs m

pub is_attached-join :
    (id client j b : Bytes) (m : Map Clients)
    → is_attached j b (join id client m)
      ≡ (if bytes_eq id j && bytes_eq client b then true else is_attached j b m)
unfolding is_attached join or_new
is_attached-join id client j b m = elim (Option-cases (lookup id m)) [
  | inl e ↦ ground (
    arith,
    e,
    bytes_eq_iff id j,
    lookup-set id j (insert client tt []) m,
    lookup-client client b [],
    lookup-empty [] b refl,
  )
  | inr (cs, e) ↦ ground (
    arith,
    e,
    bytes_eq_iff id j,
    lookup-set id j (insert client tt cs) m,
    lookup-client client b cs,
  )
]

pub is_attached-leave :
    (id client j b : Bytes) (m : Map Clients)
    → is_attached j b (leave id client m).0
      ≡ (if bytes_eq id j && bytes_eq client b then false else is_attached j b m)
unfolding is_attached leave
is_attached-leave id client j b m = elim (Option-cases (lookup id m)) [
  | inl e ↦ ground (arith, e, bytes_eq_iff id j)
  | inr (cs, e) ↦ ground (
    arith,
    e,
    bytes_eq_iff id j,
    lookup-set id j (delete client cs) m,
    lookup-delete id j m,
    lookup-delete client b cs,
    lookup-empty (delete client cs) b,
  )
]

-- A client that is in the set of a session has that session as its own.
abbrev pub Agree : Daemon → Type 0
Agree d =
    (id client : Bytes)
    → is_attached id client d.attachments ≡ true
    → lookup client d.client_session ≡ some id

-- No session's set holds the client.
abbrev pub Gone : Bytes → Daemon → Type 0
Gone client d = (id : Bytes) → is_attached id client d.attachments ≡ false

leave-Agree :
    (id client : Bytes) (d e : Daemon)
    → Agree d
    → lookup client d.client_session ≡ some id
    → e.attachments ≡ (leave id client d.attachments).0
    → e.client_session ≡ delete client d.client_session
    → Agree e × Gone client e
leave-Agree id client d e a own maps sessions = (agree, gone)
  where
    agree :
        (j b : Bytes) → is_attached j b e.attachments ≡ true → lookup b e.client_session ≡ some j
    agree j b h = elim (Bool-cases (is_attached j b d.attachments)) [
      | inl was ↦ rw sessions (
          ground (
            arith,
            a j b was,
            own,
            bytes_eq_iff client b,
            bytes_eq_iff id j,
            lookup-delete client b d.client_session,
            rw (maps, is_attached-leave id client j b d.attachments) at h,
          ))
      | inr was_not ↦ ground (arith, rw (maps, is_attached-leave id client j b d.attachments) at h)
    ]

    gone : (j : Bytes) → is_attached j client e.attachments ≡ false
    gone j = rw maps (elim (Bool-cases (is_attached j client d.attachments)) [
      | inl was ↦ ground (
        arith,
        a j client was,
        own,
        bytes_eq_iff id j,
        bytes_eq_refl client,
        is_attached-leave id client j client d.attachments,
      )
      | inr was_not ↦ ground (arith, is_attached-leave id client j client d.attachments)
    ])

pub finish-maps :
    (id : Bytes) (r : Map Clients × Bool) (sessions : Map Bytes) (s : Service)
    → ((finish id r sessions s).0.attachments ≡ r.0)
      × ((finish id r sessions s).0.client_session ≡ sessions)
unfolding finish
finish-maps id (m, true) sessions s = (refl, refl)
finish-maps id (m, false) sessions s = (refl, refl)

pub finish-Agree :
    (id client : Bytes) (d : Daemon)
    → Agree d
    → lookup client d.client_session ≡ some id
    → let e =
        (finish id (leave id client d.attachments) (delete client d.client_session) d.service).0 in
      Agree e × Gone client e
finish-Agree id client d a own =
    let r = leave id client d.attachments in
    let gone = delete client d.client_session in
    let (maps, sessions) = finish-maps id r gone d.service in
    leave-Agree id client d (finish id r gone d.service).0 a own maps sessions

-- When a client disconnects, maps that agree still agree, and no session keeps the client.
pub detach_client-Agree :
    (client : Bytes) (d : Daemon)
    → Agree d
    → Agree (detach_client client d).0 × Gone client (detach_client client d).0
unfolding detach_client
detach_client-Agree client d a = elim (Option-cases (lookup client d.client_session)) [
  | inl e ↦ rw (e, detach_client) (a, unattached e)
  | inr (id, e) ↦ rw (e, detach_client) (finish-Agree id client d a e)
]
  where
    unattached : lookup client d.client_session ≡ none → Gone client d
    unattached e id = elim (Bool-cases (is_attached id client d.attachments)) [
      | inl was ↦ ground (arith, a id client was, e)
      | inr was_not ↦ was_not
    ]
