-- ===== src/Url/Cut.antt =====
-- Each phase of `Parse` on a text whose parts are known.
use grpc_over_ayame.Base.{
  ℕ, ◌+◌, ◌-◌, ◌≡◌, ap, ◌∙◌, true, some, [], ◌∷◌, ◌++◌, append_assoc, Bytes, length, take,
  length-append, take-append, drop-append, arith,
}
use grpc_over_ayame.Url.{
  UrlParts, separator, find_text, find_from, substr_from, substr, split_path, split_user,
  split_port, parse,
}
use grpc_over_ayame.Url.Search.{Lacks, find_char-append, find_char-Lacks}

pub substr_from-append : (xs ys : Bytes) → substr_from (xs ++ ys) (length xs) ≡ some ys
unfolding substr_from
substr_from-append xs ys = ground (arith, length-append xs ys, drop-append xs ys)

substr_from-behind :
    (xs : Bytes) (c : ℕ) (ys : Bytes) → substr_from (xs ++ c ∷ ys) (length xs + 1) ≡ some ys
substr_from-behind xs c ys =
    let n : length (xs ++ c ∷ []) ≡ length xs + 1 = omega (arith, length-append xs (c ∷ [])) in
    let e = substr_from-append (xs ++ c ∷ []) ys in rw (append_assoc xs (c ∷ []) ys, n) at e

pub substr-append : (xs ys : Bytes) → substr (xs ++ ys) 0 (length xs) ≡ some xs
unfolding substr substr_from
substr-append xs ys = ground (arith, take-append xs ys)

substr-of :
    (s rest : Bytes) (n k : ℕ) → substr_from s n ≡ some rest → substr s n k ≡ some (take k rest)
unfolding substr
substr-of s rest n k e = ground arith

substr-middle :
    (xs ys zs : Bytes) (k : ℕ) → k ≡ length ys → substr (xs ++ (ys ++ zs)) (length xs) k ≡ some ys
substr-middle xs ys zs k e =
    substr-of _ _ (length xs) k (substr_from-append xs (ys ++ zs))
    ∙ rw e (ap some (take-append ys zs))

pub split_user-append :
    (user rest : Bytes) → Lacks b'@' user → split_user (user ++ b'@' ∷ rest) ≡ some (user, rest)
unfolding split_user
split_user-append user rest h = ground (
  arith,
  find_char-append b'@' user rest h,
  substr-append user (b'@' ∷ rest),
  substr_from-behind user b'@' rest,
)

pub split_user-Lacks : (text : Bytes) → Lacks b'@' text → split_user text ≡ some ([], text)
unfolding split_user
split_user-Lacks text h = ground (arith, find_char-Lacks b'@' text h)

pub split_port-append :
    (host port : Bytes) → Lacks b':' host → split_port (host ++ b':' ∷ port) ≡ some (host, port)
unfolding split_port
split_port-append host port h = ground (
  arith,
  find_char-append b':' host port h,
  substr-append host (b':' ∷ port),
  substr_from-behind host b':' port,
)

pub split_port-Lacks : (text : Bytes) → Lacks b':' text → split_port text ≡ some (text, [])
unfolding split_port
split_port-Lacks text h = ground (arith, find_char-Lacks b':' text h)

find_from-append :
    (pre authority path : Bytes)
    → Lacks b'/' authority
    → find_from b'/' (pre ++ (authority ++ b'/' ∷ path)) (length pre)
      ≡ some (length pre + length authority)
unfolding find_from
find_from-append pre authority path h =
    ground
      (arith, drop-append pre (authority ++ b'/' ∷ path), find_char-append b'/' authority path h)

pub split_path-append :
    (pre authority path : Bytes)
    → Lacks b'/' authority
    → split_path (pre ++ (authority ++ b'/' ∷ path)) (length pre) ≡ some (authority, b'/' ∷ path)
unfolding split_path
split_path-append pre authority path h =
    let n : ℕ = length pre + length authority in
    let found : find_from b'/' (pre ++ (authority ++ b'/' ∷ path)) (length pre) ≡ some n =
      find_from-append pre authority path h in
    let before = substr-middle pre authority (b'/' ∷ path) (n - length pre) (omega arith) in
    let behind : substr_from (pre ++ (authority ++ b'/' ∷ path)) n ≡ some (b'/' ∷ path) =
      rw (← append_assoc pre authority (b'/' ∷ path), ← length-append pre authority)
        (substr_from-append (pre ++ authority) (b'/' ∷ path)) in
    rw (found, split_path) (rw before (rw behind))

pub split_path-Lacks :
    (pre authority : Bytes)
    → Lacks b'/' authority
    → split_path (pre ++ authority) (length pre) ≡ some (authority, [])
unfolding split_path find_from
split_path-Lacks pre authority h = ground (
  arith,
  drop-append pre authority,
  find_char-Lacks b'/' authority h,
  substr_from-append pre authority,
)

-- The phases put together.
pub parse-phases :
    (url scheme authority path user host_port host port : Bytes) (n : ℕ) (old : UrlParts)
    → find_text separator url ≡ some n
    → substr url 0 n ≡ some scheme
    → split_path url (n + 3) ≡ some (authority, path)
    → split_user authority ≡ some (user, host_port)
    → split_port host_port ≡ some (host, port)
    → parse url old
      ≡ some (
        true,
        record {
          scheme = scheme;
          user_pass = user;
          host = host;
          port = port;
          path_query_fragment = path;
        },
      )
unfolding parse
parse-phases url scheme authority path user host_port host port n old f s a u p = ground arith

-- The position behind the separator.
pub length-separator : (scheme : Bytes) → length (scheme ++ separator) ≡ length scheme + 3
length-separator scheme = omega (arith, length-append scheme separator)
