-- ===== src/Buffer/Contents.antt =====
-- The readable bytes of a `Buffer` (src/base/Buffer.h) as a list, under its operations.
use reactor_chat_server.Common.{
  ℕ, ◌+◌, ◌-◌, ◌≤◌, ◌<◌, ◌≡◌, refl, sym, ap, ap₂, ◌∙◌, [], ◌++◌, inl, inr, Bytes, true, arith,
  length, take, drop, replicate, ltb, Bool-cases, add64, length-append, length-replicate,
  length-drop, length-take, take-append, drop-append, take-append_past, take-append_self,
  drop-take-append, drop-drop, drop-take, take_all, drop_all, take-take,
}
use reactor_chat_server.Buffer.{
  Buffer, k_prepend, readable_bytes, writable_bytes, retrieve, retrieve_as_string,
  retrieve_all_as_string, retrieve_all, make_space, ensure_writable, append,
}
use reactor_chat_server.Buffer.Copy.{copy_to, copy_to_lem, length-copy_to}
use reactor_chat_server.Buffer.Invariant.{
  retrieve-IsValid, IsValid, Fits, grown, moved, make_space-Branch, readable_bytes-sub,
  writable_bytes-sub,
}

-- The readable bytes, oldest first.
abbrev pub contents : Buffer → Bytes
contents b = take (b.writer_index - b.reader_index) (drop b.reader_index b.buf)

pub length-contents :
    (b : Buffer) → IsValid b → length (contents b) ≡ b.writer_index - b.reader_index
length-contents b v = omega (
  arith,
  length-take (b.writer_index - b.reader_index) (drop b.reader_index b.buf),
  length-drop b.reader_index b.buf,
)

pub length-contents-readable : (b : Buffer) → IsValid b → length (contents b) ≡ readable_bytes b
length-contents-readable b v = length-contents b v ∙ sym (readable_bytes-sub b v)

-- What `make_space` and `ensure_writable` promise: the same bytes, and room for `n` more.
pub record Prepared (n : ℕ) (b c : Buffer) : Type 0 where
  pub valid : IsValid c
  pub same : contents c ≡ contents b
  pub room : c.writer_index + n ≤ length c.buf

module _ (n : ℕ) (b : Buffer) (v : IsValid b) (f : Fits n b) where
  grown_buf : Bytes
  grown_buf = b.buf ++ replicate (b.writer_index + n - length b.buf) 0

  grown-Prepared : length b.buf < b.writer_index + n → Prepared n b (record b { buf = grown_buf })
  unfolding grown_buf
  grown-Prepared h = record {
    valid = omega (arith, size);
    same =
        ap (take (b.writer_index - b.reader_index))
          (drop-append b.reader_index b.buf _ (omega arith))
        ∙ take-append (b.writer_index - b.reader_index) (drop b.reader_index b.buf) _
            (omega (arith, length-drop b.reader_index b.buf));
    room = omega (arith, size);
  }
    where
      size : length grown_buf ≡ b.writer_index + n
      size = omega (
        arith,
        length-append b.buf (replicate (b.writer_index + n - length b.buf) 0),
        length-replicate {A = ℕ} (b.writer_index + n - length b.buf) 0,
      )

  moved_buffer : Buffer
  moved_buffer = record {
    buf = copy_to k_prepend b.buf (contents b);
    reader_index = k_prepend;
    writer_index = k_prepend + (b.writer_index - b.reader_index);
  }

  moved-Prepared :
      n + k_prepend ≤ length b.buf - b.writer_index + b.reader_index → Prepared n b moved_buffer
  unfolding moved_buffer
  moved-Prepared h = record {
    valid = omega (arith, length-copy_to k_prepend b.buf (contents b));
    same = sym splice;
    room = omega (arith, length-copy_to k_prepend b.buf (contents b));
  }
    where
      placed :
          copy_to k_prepend b.buf (contents b)
          ≡ take k_prepend b.buf ++ (contents b ++ drop (k_prepend + length (contents b)) b.buf)
      placed = copy_to_lem k_prepend b.buf (contents b) (omega (arith, length-contents b v))

      shift : k_prepend + (b.writer_index - b.reader_index) - k_prepend ≡ length (contents b)
      shift = omega (arith, length-contents b v)

      splice : contents b ≡ contents moved_buffer
      splice =
          sym (take-append_self (contents b) _)
          ∙ sym (ap (take (length (contents b))) (drop-take-append k_prepend b.buf _ (omega arith)))
          ∙ sym (ap₂ (λ (k : ℕ) (l : Bytes). take k (drop k_prepend l)) shift placed)

  pub make_space-Prepared : Prepared n b (make_space n b)
  unfolding grown_buf moved_buffer
  make_space-Prepared = elim (make_space-Branch n b v f) [
    | grown e h ↦ rw e (grown-Prepared h)
    | moved e h ↦ rw e (moved-Prepared h)
  ]

  pub ensure_writable-Prepared : Prepared n b (ensure_writable n b)
  unfolding ensure_writable
  ensure_writable-Prepared = elim (Bool-cases (ltb (writable_bytes b) n)) [
    | inl few ↦ rw few make_space-Prepared
    | inr enough ↦
        rw enough (record { valid = v; same = refl; room = ground (arith, writable_bytes-sub b v) })
  ]

-- Bytes copied to the write cursor stand behind the readable ones.
pub splice-contents :
    (b : Buffer) (ds : Bytes)
    → IsValid b
    → b.writer_index + length ds ≤ length b.buf
    → take
        (b.writer_index + length ds - b.reader_index)
        (drop b.reader_index (copy_to b.writer_index b.buf ds))
      ≡ contents b ++ ds
splice-contents b ds v h =
    ap (λ (l : Bytes). take k (drop r l)) (copy_to_lem w b.buf ds h)
    ∙ ap (take k) (drop-append r (take w b.buf) _ (omega (arith, length-take w b.buf)))
    ∙ ap (λ (l : Bytes). take k (l ++ (ds ++ drop (w + length ds) b.buf))) (drop-take r w b.buf)
    ∙ take-append_past k (contents b) _ (omega (arith, length-contents b v))
    ∙ ap (λ (j : ℕ). contents b ++ take j (ds ++ drop (w + length ds) b.buf))
        (omega (arith, length-contents b v))
    ∙ ap (◌++◌ (contents b)) (take-append_self ds _)
  where
    w : ℕ
    w = b.writer_index

    r : ℕ
    r = b.reader_index

    k : ℕ
    k = b.writer_index + length ds - b.reader_index

-- append on a valid buffer, within the array's maximum, puts exactly the given bytes behind the
-- readable ones, whether the array grows, is compacted or stays.
pub append-contents :
    (ds : Bytes) (b : Buffer)
    → IsValid b
    → Fits (length ds) b
    → contents (append ds b) ≡ contents b ++ ds
unfolding append
append-contents ds b v f =
    let p = ensure_writable-Prepared (length ds) b v f in
    let c = ensure_writable (length ds) b in
    let e : add64 c.writer_index (length ds) ≡ c.writer_index + length ds =
      omega (arith, p.valid, p.room) in
    ap
      (λ (k : ℕ). take (k - c.reader_index) (drop c.reader_index (copy_to c.writer_index c.buf ds)))
      e
    ∙ splice-contents c ds p.valid p.room
    ∙ ap (λ (l : Bytes). l ++ ds) p.same

pub append-IsValid :
    (ds : Bytes) (b : Buffer) → IsValid b → Fits (length ds) b → IsValid (append ds b)
unfolding append
append-IsValid ds b v f =
    let p = ensure_writable-Prepared (length ds) b v f in
    let c = ensure_writable (length ds) b in
    omega (arith, p.valid, p.room, length-copy_to c.writer_index c.buf ds)

-- retrieve on a valid buffer drops exactly that many readable bytes from the front, all of them if
-- there are fewer.
pub retrieve-contents :
    (n : ℕ) (b : Buffer) → IsValid b → contents (retrieve n b) ≡ drop n (contents b)
unfolding retrieve
retrieve-contents n b v = elim (Bool-cases (ltb n (readable_bytes b))) [
  | inl some_left ↦
      let e : add64 b.reader_index n ≡ b.reader_index + n =
        ground (arith, readable_bytes-sub b v) in
      let k : b.writer_index - (b.reader_index + n) ≡ b.writer_index - b.reader_index - n =
        omega arith in
      rw (some_left, e, k)
        (sym (
          drop-take n (b.writer_index - b.reader_index) (drop b.reader_index b.buf)
          ∙ ap (take (b.writer_index - b.reader_index - n)) (drop-drop n b.reader_index b.buf)))
  | inr all_gone ↦
      rw all_gone (
        sym (drop_all n (contents b) (ground (arith, readable_bytes-sub b v, length-contents b v))))
]

-- The string taken is the front of the readable bytes, and the rest stays.
pub retrieve_as_string_lem :
    (n : ℕ) (b : Buffer)
    → IsValid b
    → n ≤ length (contents b)
    → ((retrieve_as_string n b).0 ≡ take n (contents b))
      × (contents (retrieve_as_string n b).1 ≡ drop n (contents b))
unfolding retrieve_as_string
retrieve_as_string_lem n b v h = (front, retrieve-contents n b v)
  where
    front : take n (drop b.reader_index b.buf) ≡ take n (contents b)
    front = sym (
        take-take n (b.writer_index - b.reader_index) (drop b.reader_index b.buf)
          (omega (arith, length-contents b v)))

pub retrieve_as_string-IsValid :
    (n : ℕ) (b : Buffer) → IsValid b → IsValid (retrieve_as_string n b).1
unfolding retrieve_as_string
retrieve_as_string-IsValid n b v = retrieve-IsValid n b v

-- `retrieveAll` leaves nothing.
pub retrieve_all_lem :
    (b : Buffer) → IsValid b → IsValid (retrieve_all b) × (contents (retrieve_all b) ≡ [])
unfolding retrieve_all
retrieve_all_lem b v = (omega (arith, v), refl)

-- The readable bytes, as `peek()` and `readableBytes()` pass them.
pub peek-contents :
    (b : Buffer) → IsValid b → take (readable_bytes b) (drop b.reader_index b.buf) ≡ contents b
peek-contents b v = ap (λ (k : ℕ). take k (drop b.reader_index b.buf)) (readable_bytes-sub b v)

pub retrieve_all_as_string-IsValid : (b : Buffer) → IsValid b → IsValid (retrieve_all_as_string b).1
unfolding retrieve_all_as_string
retrieve_all_as_string-IsValid b v = retrieve_as_string-IsValid (readable_bytes b) b v

pub retrieve_all_as_string_lem :
    (b : Buffer)
    → IsValid b
    → ((retrieve_all_as_string b).0 ≡ contents b) × (contents (retrieve_all_as_string b).1 ≡ [])
unfolding retrieve_all_as_string
retrieve_all_as_string_lem b v =
    let n = readable_bytes b in
    let whole : length (contents b) ≤ n = omega (arith, length-contents-readable b v) in
    let p = retrieve_as_string_lem n b v (omega (arith, length-contents-readable b v)) in
    (p.0 ∙ take_all n (contents b) whole, p.1 ∙ drop_all n (contents b) whole)

-- `makeSpace` moves the bytes strictly downwards, as an overlapping `std::copy` demands.
pub make_space_copies_down :
    (n : ℕ) (b : Buffer)
    → IsValid b
    → ltb (writable_bytes b) n ≡ true
    → n + k_prepend ≤ length b.buf - b.writer_index + b.reader_index
    → k_prepend < b.reader_index
make_space_copies_down n b v few h = ground (arith, writable_bytes-sub b v)
