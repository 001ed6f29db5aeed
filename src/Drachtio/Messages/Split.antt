-- ===== src/Drachtio/Messages/Split.antt =====
-- `splitMsg` on a message that is written from its parts.
use Prim.{Unit}
use mathlib.Core.List.{append-nil, append_assoc}
use drachtio_server.Common.{
  ℕ, ◌≡◌, ◌≢◌, refl, sym, ap, ◌∙◌, false, Option, none, some, List, [], ◌∷◌, ◌++◌, arith, ◌==◌,
  is_empty, Text, starts_with,
}
use drachtio_server.Drachtio.Messages.{
  crlf, crlf2, put_front, cut_at, lines_of, parts_of_chunk, parts_of, split_msg,
}

-- No carriage return in it.
abbrev pub NoReturn : Text → Type 0
NoReturn [] = Unit {0}
NoReturn (c ∷ s) = (c ≢ 13) × NoReturn s

abbrev pub AreLines : List Text → Type 0
AreLines [] = Unit {0}
AreLines (line ∷ lines) = NoReturn line × (is_empty line ≡ false) × AreLines lines

-- A line and those that follow it, with the ends between them.
abbrev pub join_lines : Text → List Text → Text
join_lines line [] = line
join_lines line (next ∷ lines) = line ++ 13 ∷ 10 ∷ join_lines next lines

abbrev prepend : Text → Option (Text × Text) → Option (Text × Text)
prepend t none = none
prepend t (some (before, after)) = some (t ++ before, after)

put_front-prepend :
    (c : ℕ) (t : Text) (o : Option (Text × Text)) → put_front c (prepend t o) ≡ prepend (c ∷ t) o
unfolding put_front
put_front-prepend c t none = refl
put_front-prepend c t (some (before, after)) = refl

prepend-empty : (o : Option (Text × Text)) → prepend [] o ≡ o
prepend-empty none = refl
prepend-empty (some (before, after)) = refl

-- A pattern that starts with a carriage return begins after such a text.
cut_at-skip : (p t r : Text) → NoReturn t → cut_at (13 ∷ p) (t ++ r) ≡ prepend t (cut_at (13 ∷ p) r)
unfolding cut_at starts_with
cut_at-skip p [] r _ = sym (prepend-empty (cut_at (13 ∷ p) r))
cut_at-skip p (c ∷ t) r (n, ns) =
    let e : (13 == c) ≡ false = ground arith in
    rw (e, cut_at)
      (ap (put_front c) (cut_at-skip p t r ns) ∙ put_front-prepend c t (cut_at (13 ∷ p) r))

pub cut_at-crlf : (t r : Text) → NoReturn t → cut_at crlf (t ++ 13 ∷ 10 ∷ r) ≡ some (t, r)
unfolding cut_at starts_with put_front
cut_at-crlf t r ns = cut_at-skip (10 ∷ []) t (13 ∷ 10 ∷ r) ns ∙ ap (λ u. some (u, r)) (append-nil t)

cut_at-next :
    (c : ℕ) (s t : Text)
    → c ≢ 13
    → t ≡ c ∷ s
    → cut_at crlf2 (13 ∷ 10 ∷ t) ≡ prepend (13 ∷ 10 ∷ []) (cut_at crlf2 t)
unfolding cut_at starts_with
cut_at-next c s t n p =
    let e : (13 == c) ≡ false = ground arith in
    rw (p, e, put_front-prepend 13 (10 ∷ []) (put_front c (cut_at crlf2 s)))

join_lines-first :
    (c : ℕ) (next : Text) (lines : List Text) (r : Text)
    → (s : Text) × (join_lines (c ∷ next) lines ++ r ≡ c ∷ s)
join_lines-first c next [] r = (next ++ r, refl)
join_lines-first c next (line ∷ lines) r = ((next ++ 13 ∷ 10 ∷ join_lines line lines) ++ r, refl)

-- The headers end at the empty line.
pub cut_at-crlf2 :
    (line : Text) (lines : List Text) (body : Text)
    → NoReturn line
    → AreLines lines
    → cut_at crlf2 (join_lines line lines ++ 13 ∷ 10 ∷ 13 ∷ 10 ∷ body)
      ≡ some (join_lines line lines, body)
unfolding cut_at starts_with
cut_at-crlf2 line [] body n _ =
    cut_at-skip (10 ∷ 13 ∷ 10 ∷ []) line (13 ∷ 10 ∷ 13 ∷ 10 ∷ body) n
    ∙ ap (λ u. some (u, body)) (append-nil line)
cut_at-crlf2 line ([] ∷ lines) body n (m, e, a) = absurd (ground arith)
cut_at-crlf2 line ((c ∷ next) ∷ lines) body n ((m, ms), e, a) =
    let r = 13 ∷ 10 ∷ 13 ∷ 10 ∷ body in
    let more = join_lines (c ∷ next) lines in
    let (s, p) = join_lines-first c next lines r in
    rw (append_assoc line (13 ∷ 10 ∷ more) r) (
      cut_at-skip (10 ∷ 13 ∷ 10 ∷ []) line (13 ∷ 10 ∷ (more ++ r)) n
      ∙ ap (prepend line) (
          cut_at-next c s (more ++ r) m p
          ∙ ap (prepend (13 ∷ 10 ∷ [])) (cut_at-crlf2 (c ∷ next) lines body (m, ms) a)))

-- A message written as its meta line, its start line, one header line at least, an empty line and its
-- body is split into these parts, where the meta line, the start line and the header lines have no
-- carriage return and no header line is empty.
pub split_msg-written :
    (meta start_line header : Text) (headers : List Text) (body : Text)
    → NoReturn meta
    → NoReturn start_line
    → AreLines (header ∷ headers)
    → split_msg
        (meta ++ 13 ∷ 10 ∷ (join_lines start_line (header ∷ headers) ++ 13 ∷ 10 ∷ 13 ∷ 10 ∷ body))
      ≡ record {
        meta = meta;
        start_line = start_line;
        headers = join_lines header headers;
        body = body;
      }
unfolding split_msg parts_of parts_of_chunk lines_of
split_msg-written meta start_line header headers body m n a = rw (
  cut_at-crlf meta (join_lines start_line (header ∷ headers) ++ 13 ∷ 10 ∷ 13 ∷ 10 ∷ body) m,
  cut_at-crlf2 start_line (header ∷ headers) body n a,
  cut_at-crlf start_line (join_lines header headers) n,
)
