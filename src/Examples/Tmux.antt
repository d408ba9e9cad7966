-- ===== src/Examples/Tmux.antt =====
-- The tmux shim on concrete inputs.
use wmux.Prelude.{◌≡◌, refl, [], ◌∷◌, ◌++◌, bytes_eq, codes}
use wmux.Prelude.Int.{pos}
use wmux.Prelude.Atoi.{atoi, atoi_fails}
use wmux.Prelude.Search.{has_prefix}
use wmux.Tmux.{create, exec, calls, exits, main}

creates :
    main []
      (codes "new-session" ∷ codes "-d" ∷ codes "-s" ∷ codes "a" ∷ codes "-x" ∷ codes "100" ∷ [])
    ≡ calls (create (codes "a") (codes "/bin/sh") (pos 100) (pos 24))
unfolding main bytes_eq atoi atoi_fails
creates = refl

needs_target : main [] (codes "send-keys" ∷ codes "ls" ∷ []) ≡ exits 1
unfolding main bytes_eq
needs_target = refl

-- The space that joins the keys is sent before the newline.
sends :
    main [] (codes "send-keys" ∷ codes "-t" ∷ codes "a" ∷ codes "ls" ∷ codes "Enter" ∷ [])
    ≡ calls (exec (codes "a") (codes "ls " ++ 10 ∷ []))
unfolding main bytes_eq has_prefix
sends = refl

-- The name of a key is replaced within a word too.
sends_word :
    main [] (codes "send-keys" ∷ codes "-t" ∷ codes "a" ∷ codes "Tables" ∷ [])
    ≡ calls (exec (codes "a") (9 ∷ codes "les"))
unfolding main bytes_eq has_prefix
sends_word = refl
