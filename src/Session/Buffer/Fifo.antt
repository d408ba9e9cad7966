-- ===== src/Session/Buffer/Fifo.antt =====
-- The buffer is a queue of bytes with hysteresis.
use wmux.Prelude.{
  ℕ, ◌≡◌, sym, ap, ◌∙◌, Bool, List, [], ◌∷◌, ◌++◌, Bytes, arith, append_assoc, append-nil,
  take-append-drop,
}
use wmux.Session.Buffer.{Buffer, reclaim, append_to, check_pause, write, check_resume, read, read_n}

pub data Op : Type 0 where
  writes : Bool → Bytes → Op
  reads : Op
  reads_n : ℕ → Op

abbrev pub input : Op → Bytes
input (writes grow p) = p
input reads = []
input (reads_n n) = []

unfoldable pub apply : Op → Buffer → Bytes × Buffer
apply (writes grow p) b = ([], write grow p b)
apply reads b = let (s, c) = read b in (s.bytes, c)
apply (reads_n n) b = let (s, c) = read_n n b in (s.bytes, c)

-- All bytes handed out, in order, and the buffer that is left.
unfoldable pub run : List Op → Buffer → Bytes × Buffer
run [] b = ([], b)
run (o ∷ os) b = let (out, c) = apply o b in let (outs, d) = run os c in (out ++ outs, d)

abbrev pub inputs : List Op → Bytes
inputs [] = []
inputs (o ∷ os) = input o ++ inputs os

content-reclaim : (b : Buffer) → (reclaim b).content ≡ b.content
unfolding reclaim
content-reclaim b = ground arith

content-append_to :
    (grow : Bool) (p : Bytes) (b : Buffer) → (append_to grow p b).content ≡ b.content ++ p
unfolding append_to
content-append_to grow [] b = sym (append-nil b.content)
content-append_to grow (x ∷ xs) b = ground arith

pub content-write :
    (grow : Bool) (p : Bytes) (b : Buffer) → (write grow p b).content ≡ b.content ++ p
unfolding write check_pause
content-write grow p b = ground (arith, content-append_to grow p (reclaim b), content-reclaim b)

pub content-read : (b : Buffer) → (read b).0.bytes ++ (read b).1.content ≡ b.content
unfolding read check_resume
content-read b = ground (arith, append-nil b.content)

content-read_n : (n : ℕ) (b : Buffer) → (read_n n b).0.bytes ++ (read_n n b).1.content ≡ b.content
unfolding read_n check_resume
content-read_n n b = ground (arith, append-nil b.content, take-append-drop n b.content)

content-apply :
    (o : Op) (b : Buffer) → (apply o b).0 ++ (apply o b).1.content ≡ b.content ++ input o
unfolding apply
content-apply (writes grow p) b = content-write grow p b
content-apply reads b = content-read b ∙ sym (append-nil b.content)
content-apply (reads_n n) b = content-read_n n b ∙ sym (append-nil b.content)

-- Whatever the operations, what was handed out and then what is still held is what was held and then
-- what was written: no byte is lost, repeated or reordered.
pub run-fifo :
    (os : List Op) (b : Buffer) → (run os b).0 ++ (run os b).1.content ≡ b.content ++ inputs os
unfolding run
run-fifo [] b = sym (append-nil b.content)
run-fifo (o ∷ os) b =
    let c = (apply o b).1 in
    append_assoc (apply o b).0 (run os c).0 (run os c).1.content
    ∙ ap (λ x. (apply o b).0 ++ x) (run-fifo os c)
    ∙ sym (append_assoc (apply o b).0 c.content (inputs os))
    ∙ ap (λ x. x ++ inputs os) (content-apply o b)
    ∙ append_assoc b.content (input o) (inputs os)
