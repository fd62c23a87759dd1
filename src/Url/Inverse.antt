-- ===== src/Url/Inverse.antt =====
-- `Parse` reads exactly the parts that a URL has.
use grpc_over_ayame.Base.{
  ◌≡◌, inl, inr, ap, true, some, [], ◌∷◌, ◌++◌, append_assoc, append-nil, Bytes, length, arith,
}
use grpc_over_ayame.Url.{
  UrlParts, separator, starts, find_text, split_path, split_user, split_port, parse,
}
use grpc_over_ayame.Url.Search.{Lacks}
use grpc_over_ayame.Url.Cut.{
  substr-append, split_path-append, split_path-Lacks, split_user-append, split_user-Lacks,
  split_port-append, split_port-Lacks, parse-phases, length-separator,
}
use grpc_over_ayame.Url.Shape.{
  LacksSeparator, IsUserPart, IsPortPart, IsPath, Decomposes, Lacks-append,
}

-- No occurrence of the separator overlaps the end of the scheme.
find_text-LacksSeparator :
    (scheme post : Bytes)
    → LacksSeparator scheme
    → find_text separator ((scheme ++ separator) ++ post) ≡ some (length scheme)
unfolding find_text starts
find_text-LacksSeparator [] post h = ground arith
find_text-LacksSeparator (x ∷ []) post h = ground arith
find_text-LacksSeparator (x ∷ y ∷ []) post h = ground arith
find_text-LacksSeparator (x ∷ y ∷ z ∷ r) post h =
    let tail : LacksSeparator (y ∷ z ∷ r) = λ a b e. h (x ∷ a) b (ap (◌∷◌ x) e) in
    ground (arith, h [] r, find_text-LacksSeparator (y ∷ z ∷ r) post tail)

split_user-Decomposes :
    (user written rest : Bytes)
    → IsUserPart user written
    → Lacks b'@' user
    → (written ≡ [] → Lacks b'@' rest)
    → split_user (written ++ rest) ≡ some (user, rest)
split_user-Decomposes user written rest (inl (e, w)) h n = rw (e, w) (split_user-Lacks rest (n w))
split_user-Decomposes user written rest (inr w) h n =
    rw (w, append_assoc user (b'@' ∷ []) rest) (split_user-append user rest h)

split_port-Decomposes :
    (host port written : Bytes)
    → IsPortPart port written
    → Lacks b':' host
    → split_port (host ++ written) ≡ some (host, port)
split_port-Decomposes host port written (inl (e, w)) h =
    rw (e, w, append-nil host) (split_port-Lacks host h)
split_port-Decomposes host port written (inr w) h = rw w (split_port-append host port h)

split_path-Decomposes :
    (pre authority path : Bytes)
    → IsPath path
    → Lacks b'/' authority
    → split_path (pre ++ (authority ++ path)) (length pre) ≡ some (authority, path)
split_path-Decomposes pre authority path (inl e) h =
    rw (e, append-nil authority) (split_path-Lacks pre authority h)
split_path-Decomposes pre authority path (inr (rest, e)) h =
    rw e (split_path-append pre authority rest h)

user_part-Lacks :
    (user written : Bytes) → IsUserPart user written → Lacks b'/' user → Lacks b'/' written
user_part-Lacks user written (inl (e, w)) h = rw w tt
user_part-Lacks user written (inr w) h = rw w (Lacks-append b'/' user (b'@' ∷ []) h (omega arith))

port_part-Lacks :
    (port written : Bytes) → IsPortPart port written → Lacks b'/' port → Lacks b'/' written
port_part-Lacks port written (inl (e, w)) h = rw w tt
port_part-Lacks port written (inr w) h = rw w (omega arith, h)

pub parse-of_Decomposes :
    (url : Bytes) (old p : UrlParts) → Decomposes url p → parse url old ≡ some (true, p)
parse-of_Decomposes url old p d =
    let authority : Bytes = d.user_part ++ (p.host ++ d.port_part) in
    let clean : Lacks b'/' authority =
      Lacks-append b'/' d.user_part (p.host ++ d.port_part)
        (user_part-Lacks p.user_pass d.user_part d.user_is d.user_lacks.0)
        (Lacks-append b'/' p.host d.port_part d.host_lacks.0
          (port_part-Lacks p.port d.port_part d.port_is d.port_lacks)) in
    let path : Bytes = p.path_query_fragment in
    rw d.whole (
      parse-phases ((p.scheme ++ separator) ++ (authority ++ path)) p.scheme authority path
        p.user_pass (p.host ++ d.port_part) p.host p.port (length p.scheme) old
        (find_text-LacksSeparator p.scheme (authority ++ path) d.scheme_lacks)
        (rw (append_assoc p.scheme separator (authority ++ path)) (substr-append p.scheme _))
        (rw (← length-separator p.scheme)
          (split_path-Decomposes (p.scheme ++ separator) authority path d.path_is clean))
        (split_user-Decomposes p.user_pass d.user_part (p.host ++ d.port_part) d.user_is
          d.user_lacks.1 d.no_user)
        (split_port-Decomposes p.host p.port d.port_part d.port_is d.host_lacks.1))
