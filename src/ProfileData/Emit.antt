-- ===== src/ProfileData/Emit.antt =====
-- What `Evict` and `FlushEvicted` of profiledata.cc do to the output: the file of an open collector
-- followed by the eviction buffer is one stream of slots.
use javaprofiler.Base.{
  ℕ, ◌%◌, ◌^◌, ◌+◌, ◌≤◌, ◌<◌, ◌≡◌, refl, sym, ap, ◌∙◌, true, false, some, List, [], ◌∷◌, ◌++◌,
  length, length-append, length-take, take, append-nil, append_assoc, list_eq, ltb, Bool-cases,
  lt→ltb, nil_of_empty, inl, inr, arith,
}
use javaprofiler.Run.{Returns}
use javaprofiler.Os.FdWrite.{IsReliable, fd_write-Appended}
use javaprofiler.Slot.{encode, encode-append, length-encode}
use javaprofiler.ProfileData.{
  World, num_evicted, buffer_length, enabled, flushed, with_slots, flush_evicted, push_slot,
  push_stack, make_room,
}

-- The collector is enabled, its descriptor refers to the file at `path`, no write to come fails, and
-- `total_bytes_` is the file's size.
pub record IsOpen (path : List ℕ) (w : World) : Type 0 where
  pub fd : ℕ
  pub out : w.profile.out ≡ some fd
  pub target : w.os.fds fd ≡ some path
  pub reliable : IsReliable w.os.writes
  pub room : num_evicted w ≤ buffer_length
  pub sized : w.profile.total_bytes ≡ length (w.os.files path) % 2 ^ 64

pub IsOpen-enabled : (path : List ℕ) (w : World) → IsOpen path w → enabled w ≡ true
unfolding enabled
IsOpen-enabled path w o = rw o.out

-- What has been written and what waits in the buffer, in bytes.
unfoldable pub stream : List ℕ → World → List ℕ
stream path w = w.os.files path ++ encode w.profile.evict

pub stream-empty :
    (path : List ℕ) (w : World) → w.profile.evict ≡ [] → stream path w ≡ w.os.files path
unfolding stream encode
stream-empty path w h = rw h (append-nil (w.os.files path))

-- From `w` to `w'` the stream grew by `slots`; the table, the number of samples and the file's
-- name stayed, and so did every other file.
pub record Emits (path : List ℕ) (slots : List ℕ) (w w' : World) : Type 0 where
  pub opened : IsOpen path w'
  pub grown : stream path w' ≡ stream path w ++ encode slots
  pub hash : w'.profile.hash ≡ w.profile.hash
  pub count : w'.profile.count ≡ w.profile.count
  pub fname : w'.profile.fname ≡ w.profile.fname
  pub others : (q : List ℕ) → list_eq path q ≡ false → w'.os.files q ≡ w.os.files q

pub Emits-refl : (path : List ℕ) (w : World) → IsOpen path w → Emits path [] w w
unfolding encode
Emits-refl path w o = record {
  opened = o;
  grown = sym (append-nil (stream path w));
  hash = refl;
  count = refl;
  fname = refl;
  others = λ q _. refl;
}

pub Emits-trans :
    (path xs ys : List ℕ) {u v w : World}
    → Emits path xs u v
    → Emits path ys v w
    → Emits path (xs ++ ys) u w
Emits-trans path xs ys {u} a b = record {
  opened = b.opened;
  grown =
      b.grown
      ∙ ap (λ s. s ++ encode ys) a.grown
      ∙ append_assoc (stream path u) (encode xs) (encode ys)
      ∙ ap (◌++◌ (stream path u)) (sym (encode-append xs ys));
  hash = b.hash ∙ a.hash;
  count = b.count ∙ a.count;
  fname = b.fname ∙ a.fname;
  others = λ q n. b.others q n ∙ a.others q n;
}

-- FlushEvicted on a collector that is open on a file, with writes that do not fail, returns and
-- moves the buffer to the file: the stream of file and buffer stays, and the buffer is empty.
pub flush_evicted-Emits :
    (path : List ℕ) (w : World)
    → IsOpen path w
    → Returns (flush_evicted w) λ w'. Emits path [] w w' × (w'.profile.evict ≡ [])
unfolding flush_evicted stream encode
flush_evicted-Emits path w o = elim (Bool-cases (ltb 0 (num_evicted w))) [
  | inl left ↦
      let (os, run, a) =
        fd_write-Appended o.fd (encode w.profile.evict) path w.os o.target o.reliable in
      (
        flushed w os,
        rw (left, o.out, run),
        (
          record {
            opened = record {
              fd = o.fd;
              out = o.out;
              target = rw a.fds o.target;
              reliable = a.reliable;
              room = omega arith;
              sized = omega (
                arith,
                o.sized,
                ap length a.all,
                length-append (w.os.files path) (encode w.profile.evict),
                length-encode w.profile.evict,
              );
            };
            grown = ap (λ f. f ++ []) a.all;
            hash = refl;
            count = refl;
            fname = refl;
            others = a.others;
          },
          refl,
        ),
      )
  | inr empty ↦ (w, rw empty, (Emits-refl path w o, nil_of_empty _ empty))
]

module _ (path : List ℕ) where
  with_slots-Emits :
      (xs : List ℕ) (w : World)
      → IsOpen path w
      → num_evicted w + length xs ≤ buffer_length
      → Emits path xs w (with_slots w xs)
  unfolding stream
  with_slots-Emits xs w o h = record {
    opened = record {
      fd = o.fd;
      out = o.out;
      target = o.target;
      reliable = o.reliable;
      room = omega (arith, length-append w.profile.evict xs);
      sized = o.sized;
    };
    grown =
        ap (◌++◌ (w.os.files path)) (encode-append w.profile.evict xs)
        ∙ sym (append_assoc (w.os.files path) (encode w.profile.evict) (encode xs));
    hash = refl;
    count = refl;
    fname = refl;
    others = λ q _. refl;
  }

  pub push_slot-Emits :
      (v : ℕ) (w : World)
      → IsOpen path w
      → num_evicted w < buffer_length
      → Returns
          (push_slot v w)
          λ w'. Emits path (v ∷ []) w w' × (num_evicted w' ≡ num_evicted w + 1)
  unfolding push_slot
  push_slot-Emits v w o h = (
    with_slots w (v ∷ []),
    rw (lt→ltb (num_evicted w) buffer_length h),
    (
      with_slots-Emits (v ∷ []) w o (omega arith),
      omega (arith, length-append w.profile.evict (v ∷ [])),
    ),
  )

  pub push_stack-Emits :
      (d : ℕ) (stack : List ℕ) (w : World)
      → IsOpen path w
      → d ≤ length stack
      → num_evicted w + d ≤ buffer_length
      → Returns (push_stack d stack w) (Emits path (take d stack) w)
  unfolding push_stack
  push_stack-Emits d stack w o h k = (
    with_slots w (take d stack),
    ground arith,
    with_slots-Emits (take d stack) w o (omega (arith, length-take d stack)),
  )

  -- After the guard there is room for the slots that were asked for.
  pub make_room-Emits :
      (nslots : ℕ) (w : World)
      → IsOpen path w
      → nslots ≤ buffer_length
      → Returns
          (make_room nslots w)
          λ w'. Emits path [] w w' × (num_evicted w' + nslots ≤ buffer_length)
  unfolding make_room
  make_room-Emits nslots w o h = elim (Bool-cases (ltb buffer_length (num_evicted w + nslots))) [
    | inl full ↦
        let (w', run, (e, none_left)) = flush_evicted-Emits path w o in
        (w', rw (full, run) (ground (arith, none_left)), (e, rw none_left (omega arith)))
    | inr fits ↦ (w, rw fits, (Emits-refl path w o, ground arith))
  ]
