-- ===== src/Recovery/Wal/Frames.antt =====
-- Records of the log of recovery/wal_manager.cpp, written and read back.
use database_engine.Base.{
  ℕ, suc, ◌+◌, ◌*◌, ◌%◌, ◌^◌, ◌≤◌, ◌<◌, ◌≡◌, refl, sym, ap, ◌∙◌, subst, ◌≢◌, ◌⊎◌, inl, inr, Bool,
  true, false, not, List, [], ◌∷◌, ◌++◌, append_assoc, append-nil, arith, ◌==◌, if◌then◌else◌,
  le→ltb, ==_iff, length, take, drop, length-append, take_append, drop_append,
}
use database_engine.Util.Status.{ok, ◌>>=◌}
use database_engine.Util.Bytes.{
  read_fixed, fixed_bytes, data_of, length-fixed_bytes, read_fixed-data_of, data_of-append,
}
use database_engine.Storage.Page.{page_size}
use database_engine.Recovery.Wal.{
  WalRecord, update_type, fixed_part, fixed_size, body, frame, parse_fixed, parse_body, read_from,
}

-- The records that the log can hold: the fields fit their widths, and exactly an update has images.
pub record Fits (r : WalRecord) : Type 0 where
  pub lsn_fits : r.lsn < 2 ^ 64
  pub txn_fits : r.txn_id < 2 ^ 64
  pub page_fits : r.page_id < 2 ^ 32
  pub images :
      (r.type ≡ update_type)
        × (length r.before_image ≡ page_size)
        × (length r.after_image ≡ page_size)
      ⊎ (r.type ≢ update_type) × (r.before_image ≡ []) × (r.after_image ≡ [])

length-fixed_part : (r : WalRecord) → length (fixed_part r) ≡ fixed_size
length-fixed_part r = omega (
  arith,
  length-append (fixed_bytes 8 r.lsn)
      (r.type ∷ (fixed_bytes 8 r.txn_id ++ fixed_bytes 4 r.page_id)),
  length-append (fixed_bytes 8 r.txn_id) (fixed_bytes 4 r.page_id),
  length-fixed_bytes 8 r.lsn,
  length-fixed_bytes 8 r.txn_id,
  length-fixed_bytes 4 r.page_id,
)

fixed_part_read :
    (r : WalRecord) (rest : List ℕ)
    → Fits r
    → let d = data_of (fixed_part r ++ rest) in
      (read_fixed 8 d 0 ≡ r.lsn)
      × (d 8 ≡ r.type)
      × (read_fixed 8 d 9 ≡ r.txn_id)
      × (read_fixed 4 d 17 ≡ r.page_id)
fixed_part_read r rest f =
    let lsn = fixed_bytes 8 r.lsn in
    let txn = fixed_bytes 8 r.txn_id in
    let page = fixed_bytes 4 r.page_id in
    let tail = txn ++ (page ++ rest) in
    let front = lsn ++ r.type ∷ [] in
    let split : fixed_part r ++ rest ≡ lsn ++ (r.type ∷ tail) =
      append_assoc lsn (r.type ∷ (txn ++ page)) rest
      ∙ ap (λ t. lsn ++ (r.type ∷ t)) (append_assoc txn page rest) in
    let at_txn : lsn ++ (r.type ∷ tail) ≡ front ++ tail =
      sym (append_assoc lsn (r.type ∷ []) tail) in
    let at_page : front ++ tail ≡ (front ++ txn) ++ (page ++ rest) =
      sym (append_assoc front txn (page ++ rest)) in
    let front_size : length front ≡ 9 =
      omega (arith, length-append lsn (r.type ∷ []), length-fixed_bytes 8 r.lsn) in
    let page_start : length (front ++ txn) ≡ 17 =
      omega (arith, length-append front txn, length-fixed_bytes 8 r.txn_id, front_size) in
    rw split (
      read_fixed-data_of 8 r.lsn [] (r.type ∷ tail) f.lsn_fits,
      rw (length-fixed_bytes 8 r.lsn) at (data_of-append lsn r.type tail),
      rw at_txn (rw front_size at (read_fixed-data_of 8 r.txn_id front (page ++ rest) f.txn_fits)),
      rw (at_txn ∙ at_page)
          (rw page_start at (read_fixed-data_of 4 r.page_id (front ++ txn) rest f.page_fits)),
    )

parse_fixed-fixed_part :
    (r : WalRecord) (rest : List ℕ)
    → Fits r
    → parse_fixed (fixed_part r ++ rest) ≡ record r { before_image = []; after_image = [] }
unfolding parse_fixed
parse_fixed-fixed_part r rest f =
    let (lsn, type, txn, page) = fixed_part_read r rest f in cc (lsn, type, txn, page)

length-body :
    (r : WalRecord)
    → Fits r
    → length (body r) ≡ (if r.type == update_type then fixed_size + 2 * page_size else fixed_size)
unfolding body
length-body r f = elim f.images [
  | inl (t, b, a) ↦ ground (
    arith,
    length-append (fixed_part r) (r.before_image ++ r.after_image),
    length-append r.before_image r.after_image,
    length-fixed_part r,
    b,
    a,
  )
  | inr (t, b, a) ↦ ground (arith, length-fixed_part r, t)
]

-- The images stand behind the fixed part.
images_read :
    (front before after : List ℕ) (n k : ℕ)
    → length front ≡ n
    → length before ≡ k
    → length after ≡ k
    → (take k (drop n (front ++ (before ++ after))) ≡ before)
      × (take k (drop (n + k) (front ++ (before ++ after))) ≡ after)
images_read front before after n k f b a =
    let behind : drop (length (front ++ before)) ((front ++ before) ++ after) ≡ after =
      drop_append (front ++ before) after in
    (
      rw (sym f, sym b, drop_append, take_append),
      rw
          (
            sym (append_assoc front before after),
            sym f,
            sym b,
            sym (length-append front before),
            behind,
          )
          (rw (b ∙ sym a) (rw append-nil at (take_append after []))),
    )

module _ {A : Type 0} (a b : Bool) (x y z : A) where
  second_else : a ≡ true → b ≡ false → (if not a then x else if b then y else z) ≡ z
  second_else p q = ground (arith, p, q)

differs : (m n : ℕ) → m ≢ n → (m == n) ≡ false
differs m n h = ground arith

parse_body_update :
    (buf : List ℕ)
    → (parse_fixed buf).type ≡ update_type
    → fixed_size + 2 * page_size ≤ length buf
    → parse_body buf
      ≡ ok (record (parse_fixed buf) {
        before_image = take page_size (drop fixed_size buf);
        after_image = take page_size (drop (fixed_size + page_size) buf);
      })
unfolding parse_body
parse_body_update buf t l =
    second_else _ _ _ _ _ ((==_iff (parse_fixed buf).type update_type).1 t)
      (le→ltb (length buf) (fixed_size + 2 * page_size) l)

parse_body_plain :
    (buf : List ℕ) → (parse_fixed buf).type ≢ update_type → parse_body buf ≡ ok (parse_fixed buf)
unfolding parse_body
parse_body_plain buf t = rw (differs (parse_fixed buf).type update_type t) refl

body_update :
    (r : WalRecord)
    → r.type ≡ update_type
    → body r ≡ fixed_part r ++ (r.before_image ++ r.after_image)
unfolding body
body_update r t = ground arith

body_plain : (r : WalRecord) → r.type ≢ update_type → body r ≡ fixed_part r ++ []
unfolding body
body_plain r t = rw append-nil (ground arith)

parse_body-body : (r : WalRecord) → Fits r → parse_body (body r) ≡ ok r
parse_body-body r f = elim f.images [
  | inl (t, b, a) ↦
      let images = r.before_image ++ r.after_image in
      let found = parse_fixed-fixed_part r images f in
      let (before, after) =
        images_read (fixed_part r) r.before_image r.after_image fixed_size page_size
          (length-fixed_part r) b a in
      let size : fixed_size + 2 * page_size ≤ length (fixed_part r ++ images) = omega (
        arith,
        length-append (fixed_part r) images,
        length-append r.before_image r.after_image,
        length-fixed_part r,
        b,
        a,
      ) in
      rw (body_update r t)
        (parse_body_update _ (ap (λ q. q.type) found ∙ t) size ∙ cc (found, before, after))
  | inr (t, b, a) ↦
      let found = parse_fixed-fixed_part r [] f in
      rw (body_plain r t)
        (parse_body_plain _ (λ u. t (sym (ap (λ q. q.type) found) ∙ u)) ∙ cc (found, b, a))
]

-- Where a whole record comes next, `ReadAll` reads it and goes on.
read_from-record :
    (fuel len : ℕ) (bytes left : List ℕ)
    → 4 ≤ length bytes
    → read_fixed 4 (data_of bytes) 0 ≡ len
    → drop 4 bytes ≡ left
    → len ≤ length left
    → read_from (suc fuel) bytes ≡ (
        parse_body (take len left) >>= λ r.
        read_from fuel (drop len left) >>= λ records. ok (r ∷ records))
unfolding read_from
read_from-record fuel len bytes left long e d l = rw (e, d) (ground arith)

pub read_from-frame :
    (fuel : ℕ) (r : WalRecord) (rest : List ℕ)
    → Fits r
    → read_from (suc fuel) (frame r ++ rest) ≡ (read_from fuel rest >>= λ records. ok (r ∷ records))
unfolding frame
read_from-frame fuel r rest f =
    let small : length (body r) < 2 ^ 32 = ground (arith, length-body r f) in
    let len : length (body r) % 2 ^ 32 ≡ length (body r) = omega arith in
    let head = fixed_bytes 4 (length (body r) % 2 ^ 32) in
    let split : frame r ++ rest ≡ head ++ (body r ++ rest) = append_assoc head (body r) rest in
    let behind : drop (length head) (head ++ (body r ++ rest)) ≡ body r ++ rest =
      drop_append head (body r ++ rest) in
    let head_size : length head ≡ 4 = length-fixed_bytes 4 (length (body r) % 2 ^ 32) in
    rw split (
      read_from-record fuel (length (body r)) (head ++ (body r ++ rest)) (body r ++ rest)
        (omega (arith, length-append head (body r ++ rest)))
        (read_fixed-data_of 4 (length (body r) % 2 ^ 32) [] (body r ++ rest) (omega arith) ∙ len)
        (subst (λ n. drop n (head ++ (body r ++ rest)) ≡ body r ++ rest) head_size behind)
        (omega (arith, length-append (body r) rest))
      ∙ rw (take_append, drop_append, parse_body-body r f) refl)
