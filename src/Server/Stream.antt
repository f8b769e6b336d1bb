-- ===== src/Server/Stream.antt =====
-- The stream of an accepted connection, with the read_exact and write_all of the standard library that
-- crates/vt-ferry-worker/src/server.rs calls.
use vt_ferry.Prelude.{
  ℕ, ◌+◌, ◌-◌, ◌≤◌, ◌≡◌, refl, Bool, true, false, ltb, if◌then◌else◌, Option, none, some, List,
  ◌++◌, take, drop, length, length-append, length-drop, take-append_at, drop-append_at, arith,
}

-- The client as the worker meets it: the bytes that it still sends before it hangs up, how many bytes it
-- still takes, and those that it took.
pub record ClientStream : Type 0 where
  pub incoming : List ℕ
  pub room : ℕ
  pub sent : List ℕ

-- The bytes that the read fills, unless the stream ends before.
unfoldable pub read_exact : ℕ → ClientStream → Option (List ℕ × ClientStream)
read_exact n c =
    if ltb (length c.incoming) n
    then none
    else some (take n c.incoming, record c { incoming = drop n c.incoming })

-- Whether all bytes were taken.
unfoldable pub write_all : List ℕ → ClientStream → Bool × ClientStream
write_all bytes c =
    if ltb c.room (length bytes)
    then (false, record c { room = 0; sent = c.sent ++ take c.room bytes })
    else (true, record c { room = c.room - length bytes; sent = c.sent ++ bytes })

pub read_exact-append :
    (n : ℕ) (bytes rest : List ℕ) (room : ℕ) (sent : List ℕ)
    → length bytes ≡ n
    → read_exact n (record { incoming = bytes ++ rest; room = room; sent = sent })
      ≡ some (bytes, record { incoming = rest; room = room; sent = sent })
unfolding read_exact
read_exact-append n bytes rest room sent h =
    let long : ltb (length (bytes ++ rest)) n ≡ false = ground (arith, length-append bytes rest) in
    rw (long, take-append_at n bytes rest h, drop-append_at n bytes rest h) refl

pub write_all-taken :
    (bytes : List ℕ) (c : ClientStream)
    → length bytes ≤ c.room
    → write_all bytes c ≡ (true, record c { room = c.room - length bytes; sent = c.sent ++ bytes })
unfolding write_all
write_all-taken bytes c h =
    let enough : ltb c.room (length bytes) ≡ false = ground arith in rw enough refl

-- A write takes nothing from what the client sends.
pub write_all-incoming :
    (bytes : List ℕ) (c : ClientStream) → (write_all bytes c).1.incoming ≡ c.incoming
unfolding write_all
write_all-incoming bytes c = ground arith

-- A read that succeeds gives as many bytes as it should, and takes them off the stream.
pub read_exact-length :
    (n : ℕ) (c : ClientStream) {bytes : List ℕ} {c' : ClientStream}
    → read_exact n c ≡ some (bytes, c')
    → length c'.incoming + n ≡ length c.incoming
unfolding read_exact
read_exact-length n c {bytes} {c'} e = ground (arith, length-drop n c.incoming)
