-- ===== src/Daemon/Attach/Reached.antt =====
-- The daemons that clients can bring about, and the client that switches sessions.
use wmux.Prelude.{
  ◌≡◌, refl, ap, ◌∙◌, true, false, Bool-cases, ◌⊎◌, inl, inr, [], none, some, Option-cases, Bytes,
  bytes_eq, bytes_eq_iff, lookup, insert, delete, arith, lookup-insert, lookup-insert_self,
}
use wmux.Session.Defs.{Session, Result, ok, err, Service}
use wmux.Session.Service.{get, attach, with_session}
use wmux.Daemon.Attach.{
  Daemon, join, leave, attach_found, attach_known, handle_attach, handle_detach, detach_client,
  is_attached,
}
use wmux.Daemon.Attach.Agree.{
  Agree, Gone, is_attached-join, is_attached-leave, finish-maps, finish-Agree, detach_client-Agree,
}

-- A client may attach if it has no session, or the same one.
abbrev pub IsFree : Bytes → Bytes → Daemon → Type 0
IsFree client id d =
    (lookup client d.client_session ≡ none) ⊎ (lookup client d.client_session ≡ some id)

joined-Agree :
    (client id : Bytes) (d : Daemon) (s : Service)
    → Agree d
    → IsFree client id d
    → Agree (record {
      attachments = join id client d.attachments;
      client_session = insert client id d.client_session;
      service = s;
    })
joined-Agree client id d s a free j b h = elim (Bool-cases (is_attached j b d.attachments)) [
  | inl was ↦ elim free [
    | inl no_session ↦ ground (
      arith,
      a j b was,
      no_session,
      bytes_eq_iff client b,
      lookup-insert client b id d.client_session,
    )
    | inr same ↦
        ground (
          arith,
          a j b was,
          same,
          bytes_eq_iff client b,
          lookup-insert client b id d.client_session,
        )
  ]
  | inr was_not ↦ ground (
    arith,
    bytes_eq_iff id j,
    lookup-insert client b id d.client_session,
    is_attached-join id client j b d.attachments,
  )
]

attach_found-Agree :
    (client id : Bytes) (info : Session) (d : Daemon) (r : Service × Result (Unit {0}))
    → Agree d
    → IsFree client id d
    → Agree (attach_found client id info d r).0
unfolding attach_found
attach_found-Agree client id info d (s, err e) a free = a
attach_found-Agree client id info d (s, ok _) a free = joined-Agree client id d s a free

attach_known-Agree :
    (client id : Bytes) (d : Daemon) (r : Result Session)
    → Agree d
    → IsFree client id d
    → Agree (attach_known client id d r).0
unfolding attach_known
attach_known-Agree client id d (err e) a free = a
attach_known-Agree client id d (ok info) a free = attach_found-Agree client id info d _ a free

-- How a daemon comes about whose clients attach only when they have no other session, and detach
-- only from their own. Requests that are not valid JSON and disconnects come at any time, and so does
-- whatever changes the sessions without a look at the attachments: sessions are created and killed,
-- end, are resized, written to and read.
pub data Reached : Daemon → Type 0 where
  begins : (s : Service) → Reached (record { attachments = []; client_session = []; service = s })
  garbage : {d : Daemon} (client : Bytes) → Reached d → Reached (handle_attach client none d).0
  attaches :
      {d : Daemon} (client id : Bytes)
      → Reached d
      → IsFree client id d
      → Reached (handle_attach client (some id) d).0
  detaches :
      {d : Daemon} (client id : Bytes)
      → Reached d
      → lookup client d.client_session ≡ some id
      → Reached (handle_detach client (some id) d).0
  sessions_change : {d : Daemon} (s : Service) → Reached d → Reached (record d { service = s })
  leaves : {d : Daemon} (client : Bytes) → Reached d → Reached (detach_client client d).0

Reached-Agree : {d : Daemon} → Reached d → Agree d
unfolding handle_attach handle_detach is_attached lookup
Reached-Agree (begins s) = λ j b h. cc
Reached-Agree (garbage client r) = Reached-Agree r
Reached-Agree (attaches {d} client id r free) =
    attach_known-Agree client id d (get id d.service) (Reached-Agree r) free
Reached-Agree (detaches {d} client id r own) = (finish-Agree id client d (Reached-Agree r) own).0
Reached-Agree (sessions_change s r) = Reached-Agree r
Reached-Agree (leaves {d} client r) = (detach_client-Agree client d (Reached-Agree r)).0

-- If clients attach only when they have no other session and detach only from their own, then whatever
-- happens to the sessions in between, after a client has disconnected no session keeps it in its set.
pub disconnected-Gone :
    (d : Daemon) (client : Bytes) → Reached d → Gone client (detach_client client d).0
disconnected-Gone d client r = (detach_client-Agree client d (Reached-Agree r)).1

attach-ok :
    (id : Bytes) (s : Service) (info : Session)
    → get id s ≡ ok info
    → (t : Service) × (attach id s ≡ (t, ok tt))
unfolding get attach
attach-ok id s info e = elim (Option-cases (lookup id s.sessions)) [
  | inl missing ↦ ground (arith, missing)
  | inr (h, found) ↦ rw (found, attach, with_session) (_, refl)
]

is_attached-detach_client :
    (client id j : Bytes) (d : Daemon)
    → lookup client d.client_session ≡ some id
    → is_attached j client (detach_client client d).0.attachments
      ≡ is_attached j client (leave id client d.attachments).0
unfolding detach_client
is_attached-detach_client client id j d e =
    let (maps, _) =
      finish-maps id (leave id client d.attachments) (delete client d.client_session) d.service in
    rw (e, detach_client) (ap (is_attached j client) maps)

handle_attach-joins :
    (client id : Bytes) (d : Daemon) (info : Session) (t : Service)
    → get id d.service ≡ ok info
    → attach id d.service ≡ (t, ok tt)
    → (handle_attach client (some id) d).0 ≡ record {
      attachments = join id client d.attachments;
      client_session = insert client id d.client_session;
      service = t;
    }
unfolding handle_attach attach_known attach_found
handle_attach-joins client id d info t known e =
    rw (known, attach_known, e, attach_found)
      (λ i. record {
        attachments = join id client d.attachments;
        client_session = insert client id d.client_session;
        service = (e i).0;
      })

-- A client that attaches to a second session without detaching from the first, and then disconnects,
-- is still in the set of the first when its disconnect has been handled.
pub switch_leaves_client :
    (client old new : Bytes) (d : Daemon) (info : Session)
    → get new d.service ≡ ok info
    → is_attached old client d.attachments ≡ true
    → bytes_eq new old ≡ false
    → is_attached old client
        (detach_client client (handle_attach client (some new) d).0).0.attachments
      ≡ true
switch_leaves_client client old new d info known here other =
    let (t, e) = attach-ok new d.service info known in
    let joined : Daemon = record {
      attachments = join new client d.attachments;
      client_session = insert client new d.client_session;
      service = t;
    } in
    ap (λ x. is_attached old client (detach_client client x).0.attachments)
      (handle_attach-joins client new d info t known e)
    ∙ is_attached-detach_client client new old joined
        (lookup-insert_self client new d.client_session)
    ∙ ground (
      arith,
      here,
      other,
      is_attached-leave new client old client joined.attachments,
      is_attached-join new client old client d.attachments,
    )
