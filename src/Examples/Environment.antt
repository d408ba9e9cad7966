-- ===== src/Examples/Environment.antt =====
-- The environment of a session on concrete inputs.
use wmux.Prelude.{◌≡◌, refl, true, [], ◌∷◌, ◌++◌, some, codes, bytes_eq, lookup, insert, delete}
use wmux.Platform.SessionDirs.{writes}
use wmux.Daemon.Environment.{symlink, file, World, done, env_content, handle_env_forward}

-- The agent's socket is there, and links can be made.
abbrev world : World
world = record {
  exists = λ p. bytes_eq p (codes "/tmp/a");
  removes = λ n. true;
  links = λ n. true;
  wrote = writes;
}

-- A path becomes a link, which replaces an older one; the rest goes to the file.
forwards :
    handle_env_forward
      (λ ks. ks)
      world
      (some (
        (codes "SOCK", codes "/tmp/a")
        ∷ (codes "LANG", codes "C")
        ∷ (codes "TERM", codes "xterm")
        ∷ []))
      (some ((codes "SOCK", symlink (codes "/tmp/old")) ∷ []))
    ≡ (
      some (
          (codes "SOCK", symlink (codes "/tmp/a"))
          ∷ (codes "env", file (codes "LANG=C" ++ 10 ∷ codes "TERM=xterm" ++ 10 ∷ []))
          ∷ []),
      done,
    )
unfolding handle_env_forward bytes_eq lookup insert delete
forwards = refl

-- A newline in a value ends its line, so that the rest is read as another variable.
injects :
    env_content (λ ks. ks) ((codes "A", codes "1" ++ 10 ∷ codes "B=2") ∷ [])
    ≡ env_content (λ ks. ks) ((codes "A", codes "1") ∷ (codes "B", codes "2") ∷ [])
unfolding env_content lookup bytes_eq
injects = refl
