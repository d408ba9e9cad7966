-- ===== src/Daemon/Output/Receipt.antt =====
-- What reaches a client of the frames that are sent to it.
use wmux.Prelude.{
  ℕ, ◌≡◌, refl, sym, ap, ◌∙◌, ◌⊎◌, if◌then◌else◌, true, false, Bool-cases, inl, inr, List, [], ◌∷◌,
  ◌++◌, append-nil, append_assoc, Option, none, some, Bytes, bytes_eq, bytes_eq_iff, bytes_eq_refl,
  map, lookup, arith, ltb, leb, length, ◌+◌,
}
use wmux.Prelude.Keys.{Distinct}
use wmux.Protocol.{Frame, max_payload_size}
use wmux.Transport.{Client, Server, sends, closes, on_client}
use wmux.Transport.Registry.{broadcast_to, write_frame, fine, write_failed}
use wmux.Daemon.Payload.{decode_data_payload}
use wmux.Daemon.Attach.{Clients}
use wmux.Daemon.Output.{World, Effect, sent, published, marked, injected, broadcast_all}
use wmux.Daemon.Output.Keeps.{Quiet}

-- The data that the client gets for the session, from the payloads of the frames sent to it.
abbrev pub body_for : Bytes → Option (Bytes × Bytes) → Bytes
body_for id none = []
body_for id (some (j, body)) = if bytes_eq j id then body else []

-- The chunks of the output of a session, one behind the other.
abbrev pub joined : List Bytes → Bytes
joined [] = []
joined (c ∷ cs) = c ++ joined cs

-- What a frame brings of a chunk: nothing if the chunk, the id and its length exceed the limit.
abbrev pub brings : Bytes → Bytes → Bytes
brings id c = if leb (1 + length id + length c) max_payload_size then c else []

abbrev pub delivered : Bytes → List Bytes → Bytes
delivered id [] = []
delivered id (c ∷ cs) = brings id c ++ delivered id cs

-- `before` is the chunks and what is left, and `out` is what frames bring of the chunks.
abbrev pub Handed : Bytes → List Bytes → Bytes → Bytes → Bytes → Type 0
Handed id chunks out before left = (before ≡ joined chunks ++ left) × (out ≡ delivered id chunks)

-- Nothing is handed out, or all as one chunk.
abbrev pub Cut : Bytes → Bytes → Bytes → Bytes → Type 0
Cut id out before left = ((out ≡ []) × (left ≡ before)) ⊎ ((out ≡ brings id before) × (left ≡ []))

-- The chunk that goes when a buffer is emptied.
abbrev pub cut : Bytes → Bytes → List Bytes
cut before [] = before ∷ []
cut before (c ∷ left) = []

brings-nil : (id : Bytes) → brings id [] ≡ []
brings-nil id = ground arith

pub Cut-trans : (id : Bytes) {o p a b c : Bytes} → Cut id o a b → Cut id p b c → Cut id (o ++ p) a c
Cut-trans id (inl (e, f)) (inl (g, h)) = inl (λ i. e i ++ g i, h ∙ f)
Cut-trans id (inl (e, f)) (inr (g, h)) = inr ((λ i. e i ++ g i) ∙ ap (brings id) f, h)
Cut-trans id {o} (inr (e, f)) (inl (g, h)) = inr (ap (λ x. o ++ x) g ∙ append-nil o ∙ e, h ∙ f)
Cut-trans id {o} (inr (e, f)) (inr (g, h)) =
    inr (ap (λ x. o ++ x) (g ∙ ap (brings id) f ∙ brings-nil id) ∙ append-nil o ∙ e, h)

-- In terms of the buffer before and after.
pub Cut-Handed :
    (id : Bytes) (out before left : Bytes)
    → Cut id out before left
    → Handed id (cut before left) out before left
Cut-Handed id out before [] (inl (e, f)) = (
  sym (append-nil (before ++ []) ∙ append-nil before),
  e ∙ sym (brings-nil id) ∙ ap (brings id) f ∙ sym (append-nil (brings id before)),
)
Cut-Handed id out before [] (inr (e, f)) =
    (sym (append-nil (before ++ []) ∙ append-nil before), e ∙ sym (append-nil (brings id before)))
Cut-Handed id out before (c ∷ left) (inl (e, f)) = (sym f, e)
Cut-Handed id out before (c ∷ left) (inr (e, f)) = cc

pub delivered-append :
    (id : Bytes) (cs ds : List Bytes) → delivered id (cs ++ ds) ≡ delivered id cs ++ delivered id ds
delivered-append id [] ds = refl
delivered-append id (c ∷ cs) ds =
    ap (λ x. brings id c ++ x) (delivered-append id cs ds)
    ∙ sym (append_assoc (brings id c) (delivered id cs) (delivered id ds))

joined-append : (cs ds : List Bytes) → joined (cs ++ ds) ≡ joined cs ++ joined ds
joined-append [] ds = refl
joined-append (c ∷ cs) ds =
    ap (λ x. c ++ x) (joined-append cs ds) ∙ sym (append_assoc c (joined cs) (joined ds))

pub Handed-trans :
    (id : Bytes) (cs ds : List Bytes) (o p a b c : Bytes)
    → Handed id cs o a b
    → Handed id ds p b c
    → Handed id (cs ++ ds) (o ++ p) a c
Handed-trans id cs ds o p a b c (e, f) (g, h) = (
  e
      ∙ ap (λ x. joined cs ++ x) g
      ∙ sym (append_assoc (joined cs) (joined ds) c)
      ∙ ap (λ x. x ++ c) (sym (joined-append cs ds)),
  (λ i. f i ++ h i) ∙ sym (delivered-append id cs ds),
)

-- What is written behind stays behind.
pub Handed-behind :
    (id : Bytes) (cs : List Bytes) (o a b p : Bytes)
    → Handed id cs o a b
    → Handed id cs o (a ++ p) (b ++ p)
Handed-behind id cs o a b p (e, f) = (ap (λ x. x ++ p) e ∙ append_assoc (joined cs) b p, f)

abbrev pub in_effect : Bytes → Bytes → Effect → Bytes
in_effect client id (sent c (sends conn f)) =
    if bytes_eq c client then body_for id (decode_data_payload f.payload) else []
in_effect client id _ = []

abbrev pub received : Bytes → Bytes → List Effect → Bytes
received client id [] = []
received client id (e ∷ es) = in_effect client id e ++ received client id es

pub received-append :
    (client id : Bytes) (es fs : List Effect)
    → received client id (es ++ fs) ≡ received client id es ++ received client id fs
received-append client id [] fs = refl
received-append client id (e ∷ es) fs =
    ap (λ x. in_effect client id e ++ x) (received-append client id es fs)
    ∙ sym (append_assoc (in_effect client id e) (received client id es) (received client id fs))

pub received-Quiet : (client id : Bytes) (es : List Effect) → Quiet es → received client id es ≡ []
received-Quiet client id [] q = refl
received-Quiet client id (sent c e ∷ es) q = elim q [ ]
received-Quiet client id (published e ∷ es) q = received-Quiet client id es q
received-Quiet client id (marked i c x r ∷ es) q = received-Quiet client id es q
received-Quiet client id (injected i r ∷ es) q = received-Quiet client id es q

module _ (w : World) (client id : Bytes) (c : Client) (conn : ℕ) (server : Server)
    (known : lookup client server.clients ≡ some c) (streaming : c.stream ≡ some conn)
    (writes : w.writable conn ≡ true) where
  to_other :
      (d : Bytes) (es : List wmux.Transport.Effect)
      → bytes_eq d client ≡ false
      → received client id (map (sent d) es) ≡ []
  to_other d [] ne = refl
  to_other d (sends k f ∷ es) ne = rw ne (to_other d es ne)
  to_other d (closes k ∷ es) ne = to_other d es ne
  to_other d (on_client k ∷ es) ne = to_other d es ne

  -- The data of a frame, unless it is too large.
  abbrev passed : Frame → Bytes
  passed f =
      if ltb max_payload_size (length f.payload)
      then []
      else body_for id (decode_data_payload f.payload)

  to_client :
      (f : Frame)
      → received client id (map (sent client) (broadcast_to w.writable client f server).0)
        ≡ passed f
  unfolding broadcast_to write_frame
  to_client f = elim (Bool-cases (ltb max_payload_size (length f.payload))) [
    | inl large ↦
        let e : broadcast_to w.writable client f server ≡ ([], write_failed) =
          rw (broadcast_to, known, streaming, write_frame, large) refl in
        rw (e, large) refl
    | inr small ↦
        let e : broadcast_to w.writable client f server ≡ (sends conn f ∷ [], fine) =
          rw (broadcast_to, known, streaming, write_frame, small, writes) refl in
        rw (e, small, bytes_eq_refl client)
          (append-nil (body_for id (decode_data_payload f.payload)))
  ]

  received-broadcast_none :
      (f : Frame) (cs : Clients)
      → lookup client cs ≡ none
      → received client id (broadcast_all w f cs server) ≡ []
  unfolding broadcast_all lookup
  received-broadcast_none f [] e = refl
  received-broadcast_none f ((d, u) ∷ cs) e = elim (Bool-cases (bytes_eq d client)) [
    | inl same ↦ ground arith
    | inr other ↦
        received-append client id (map (sent d) (broadcast_to w.writable d f server).0)
          (broadcast_all w f cs server)
        ∙ rw (to_other d (broadcast_to w.writable d f server).0 other)
            (received-broadcast_none f cs (ground arith))
  ]

  pub received-broadcast :
      (f : Frame) (cs : Clients)
      → lookup client cs ≡ some tt
      → Distinct cs
      → received client id (broadcast_all w f cs server) ≡ passed f
  unfolding broadcast_all lookup
  received-broadcast f [] e d = cc
  received-broadcast f ((k, u) ∷ cs) e d =
      received-append client id (map (sent k) (broadcast_to w.writable k f server).0)
        (broadcast_all w f cs server)
      ∙ elim (Bool-cases (bytes_eq k client)) [
        | inl same ↦
            let is = (bytes_eq_iff k client).0 same in
            let rest = received-broadcast_none f cs (ap (λ x. lookup x cs) (sym is) ∙ d.0) in
            rw (is, rest)
              (append-nil (
                  received client id
                    (map (sent client) (broadcast_to w.writable client f server).0))
                ∙ to_client f)
        | inr other ↦
            rw (to_other k (broadcast_to w.writable k f server).0 other)
              (received-broadcast f cs (ground arith) d.1)
      ]

  -- A frame without data for the session gives none, whoever gets it.
  pub received-broadcast_empty :
      (f : Frame) (cs : Clients)
      → passed f ≡ []
      → received client id (broadcast_all w f cs server) ≡ []
  unfolding broadcast_all
  received-broadcast_empty f [] e = refl
  received-broadcast_empty f ((k, u) ∷ cs) e =
      received-append client id (map (sent k) (broadcast_to w.writable k f server).0)
        (broadcast_all w f cs server)
      ∙ elim (Bool-cases (bytes_eq k client)) [
        | inl same ↦
            let is = (bytes_eq_iff k client).0 same in
            rw (is, received-broadcast_empty f cs e)
              (append-nil (
                  received client id
                    (map (sent client) (broadcast_to w.writable client f server).0))
                ∙ to_client f
                ∙ e)
        | inr other ↦
            rw (to_other k (broadcast_to w.writable k f server).0 other)
              (received-broadcast_empty f cs e)
      ]
