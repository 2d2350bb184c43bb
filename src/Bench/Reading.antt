-- ===== src/Bench/Reading.antt =====
-- `LineReader::readLine` of bench/bench_client.cc.
use reactor_chat_server.Common.{
  ℕ, zero, suc, ◌+◌, ◌-◌, ◌^◌, ◌≤◌, ◌<◌, ◌≡◌, ◌≢◌, refl, sym, ap, ◌∙◌, subst, [], ◌∷◌, ◌++◌, Option,
  none, some, Byte, Bytes, ltb, length, take, drop, arith, inl, inr, Bool-cases, Option-cases,
  append-nil, append_assoc, drop-drop, length-drop, length-append, drop-append,
}
use reactor_chat_server.Buffer.{newline, find_byte}
use reactor_chat_server.Buffer.Search.{Free, find_byte-some, find_byte-none}
use reactor_chat_server.Codec.Lines.{cut_at}
use reactor_chat_server.Bench.{LineReader, take_line, read_line}

-- What a reader holds and has not given out.
abbrev pub unread : LineReader → Bytes
unread r = drop r.pos r.buf

-- Bytes that calls of `recv` bring, from one number of calls to another.
pub data Got (recv : ℕ → Option Bytes) : ℕ → Bytes → ℕ → Type 0 where
  got_none : {i : ℕ} → Got recv i [] i
  got_more :
      {i j : ℕ} {bytes : Bytes} (piece : Bytes)
      → recv i ≡ some piece
      → Got recv (i + 1) bytes j
      → Got recv i (piece ++ bytes) j

-- No call from `limit` on brings bytes.
abbrev pub Dry : (ℕ → Option Bytes) → ℕ → Type 0
Dry recv limit = (i : ℕ) (x : Byte) (xs : Bytes) → limit ≤ i → recv i ≢ some (x ∷ xs)

-- What a call does: a line and the bytes behind it, or no line at all.
pub record ReadLine (recv : ℕ → Option Bytes) (r : LineReader) (out : Option Bytes × LineReader)
    : Type 0 where
  pub got : Bytes
  pub upto : ℕ
  pub received : Got recv r.calls got upto
  pub inside : out.1.pos ≤ length out.1.buf
  pub line :
      (l : Bytes)
      → out.0 ≡ some l
      → (unread r ++ got ≡ l ++ newline ∷ unread out.1) × Free newline l
  pub no_line : out.0 ≡ none → (unread r ++ got ≡ unread out.1) × Free newline (unread out.1)

-- The line that was found.
take_line-lem :
    (i : ℕ) (r : LineReader)
    → r.pos ≤ length r.buf
    → find_byte newline (unread r) ≡ some i
    → let (l, r') = take_line i r in
      (unread r ≡ l ++ newline ∷ unread r') × Free newline l × (r'.pos ≤ length r'.buf)
unfolding take_line
take_line-lem i r inside found =
    let (h, f, at) = find_byte-some newline (unread r) i found in
    let cut = cut_at (unread r) i newline at in
    let e : r.pos + suc i ≡ r.pos + i + 1 = omega arith in
    let behind : drop (suc i) (unread r) ≡ drop (r.pos + i + 1) r.buf =
      drop-drop (suc i) r.pos r.buf ∙ ap (λ (k : ℕ). drop k r.buf) e in
    let whole = cut ∙ ap (λ l. take i (unread r) ++ newline ∷ l) behind in
    elim (Bool-cases (ltb (2 ^ 20) (r.pos + i + 1))) [
      | inl long ↦ rw long (whole, f, omega arith)
      | inr short ↦ rw short (whole, f, omega (arith, h, length-drop r.pos r.buf))
    ]

pub sooner : (i limit : ℕ) → ¬ (limit ≤ i) → i < limit
sooner i limit h = ground arith

-- readLine, from a position inside the buffer, with a socket that brings no bytes from some call on
-- and fuel above the calls until then, returns: with a line that has no newline, such that what was
-- unread and what was received is the line, a newline and what is unread now; or with none, and
-- then all that is unread and nothing of it is a newline; and the position is inside the buffer.
pub read_line_total :
    (fuel limit : ℕ) (recv : ℕ → Option Bytes) (r : LineReader)
    → Dry recv limit
    → r.pos ≤ length r.buf
    → limit - r.calls < fuel
    → (out : Option Bytes × LineReader) × (read_line fuel recv r ≡ some out) × ReadLine recv r out
unfolding read_line
read_line_total zero limit recv r dry inside h = absurd (omega (arith, h))
read_line_total (suc fuel) limit recv r dry inside h =
    elim (Option-cases (find_byte newline (unread r))) [
      | inr (i, found) ↦
          let (whole, f, inside') = take_line-lem i r inside found in
          (
            (some (take_line i r).0, (take_line i r).1),
            rw (found, read_line),
            record {
              got = [];
              upto = r.calls;
              received = got_none;
              inside = inside';
              line = λ l e.
                  let same : (take_line i r).0 ≡ l = cc in
                  (
                    append-nil (unread r)
                        ∙ whole
                        ∙ ap (λ k. k ++ newline ∷ unread (take_line i r).1) same,
                    subst (Free newline) same f,
                  );
              no_line = λ e. cc;
            },
          )
      | inl missing ↦ by_answer (recv r.calls) refl missing (λ x xs e.
          read_line_total fuel limit recv
            (record r { buf = r.buf ++ (x ∷ xs); calls = r.calls + 1 }) dry
            (omega (arith, inside, length-append r.buf (x ∷ xs))))
    ]
  where
    failing :
        find_byte newline (unread r) ≡ none
        → ReadLine recv r (none, record r { calls = r.calls + 1 })
    failing missing = record {
      got = [];
      upto = r.calls;
      received = got_none;
      inside = inside;
      line = λ l e. cc;
      no_line = λ e. (append-nil (unread r), find_byte-none newline (unread r) missing);
    }

    by_answer :
        (a : Option Bytes)
        → recv r.calls ≡ a
        → find_byte newline (unread r) ≡ none
        → ((x : Byte) (xs : Bytes)
            → recv r.calls ≡ some (x ∷ xs)
            → let r' = record r { buf = r.buf ++ (x ∷ xs); calls = r.calls + 1 } in
              limit - (r.calls + 1) < fuel
              → (out : Option Bytes × LineReader) × (read_line fuel recv r' ≡ some out)
                × ReadLine recv r' out)
        → (out : Option Bytes × LineReader) × (read_line (suc fuel) recv r ≡ some out)
          × ReadLine recv r out
    by_answer none e missing again =
        ((none, record r { calls = r.calls + 1 }), rw (missing, e, read_line), failing missing)
    by_answer (some []) e missing again =
        ((none, record r { calls = r.calls + 1 }), rw (missing, e, read_line), failing missing)
    by_answer (some (x ∷ xs)) e missing again =
        let piece = x ∷ xs in
        let early : r.calls < limit = sooner r.calls limit (λ late. dry r.calls x xs late e) in
        let (out, f, k) = again x xs e (omega (arith, h, early)) in
        let shift =
          sym (append_assoc (unread r) piece k.got)
          ∙ ap (λ l. l ++ k.got) (sym (drop-append r.pos r.buf piece inside)) in
        (
          out,
          rw (missing, e, read_line) f,
          record {
            got = piece ++ k.got;
            upto = k.upto;
            received = got_more piece e k.received;
            inside = k.inside;
            line = λ l g. let (a, b) = k.line l g in (shift ∙ a, b);
            no_line = λ g. let (a, b) = k.no_line g in (shift ∙ a, b);
          },
        )
