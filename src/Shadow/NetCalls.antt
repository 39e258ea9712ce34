-- ===== src/Shadow/NetCalls.antt =====
-- runtime/DynamicTypeChecks/TypeRuntime.cpp: the tags of what the network calls of the C library
-- return. The members of the structures that they return, `strlen` and the sizes are arguments.
use poolalloc_3_1_upstreamed.Prelude.{ℕ, ◌+◌, ◌*◌, Option, none, some, List, [], ◌∷◌}
use poolalloc_3_1_upstreamed.Shadow.Memory.{Shadow}
use poolalloc_3_1_upstreamed.Shadow.Runtime.{track_init_inst}

-- An array of pointers at `array`, the last of which is null, from the element `i` on: each slot,
-- and `bytes p` bytes at what it points to, and the same for null with `last` bytes.
unfoldable pub track_pointers : (ℕ → ℕ) → ℕ → Shadow → ℕ → ℕ → List ℕ → Shadow
track_pointers bytes last s array i [] =
    track_init_inst (track_init_inst s (array + i * 8) 8) 0 last
track_pointers bytes last s array i (p ∷ ps) =
    track_pointers bytes last (track_init_inst (track_init_inst s (array + i * 8) 8) p (bytes p))
      array (i + 1) ps

-- `struct servent`: the aliases are those before the null pointer.
pub record Servent : Type 0 where
  pub s_name : ℕ
  pub s_aliases : ℕ
  pub aliases : List ℕ
  pub s_proto : ℕ

unfoldable pub track_getservbyname : (ℕ → ℕ) → ℕ → Shadow → ℕ → Servent → Shadow
track_getservbyname strlen size_of_servent s ptr sn =
    let s1 = track_init_inst s sn.s_name (strlen sn.s_name + 1) in
    let s2 = track_pointers (λ p. strlen p + 1) 1 s1 sn.s_aliases 0 sn.aliases in
    let s3 = track_init_inst s2 sn.s_proto (strlen sn.s_proto + 1) in
    track_init_inst s3 ptr size_of_servent

-- `struct hostent`: the aliases and the addresses are those before the null pointers.
pub record Hostent : Type 0 where
  pub h_name : ℕ
  pub h_aliases : ℕ
  pub host_aliases : List ℕ
  pub h_length : ℕ
  pub h_addr_list : ℕ
  pub addresses : List ℕ

unfoldable pub track_gethostbyname : (ℕ → ℕ) → ℕ → Shadow → ℕ → Hostent → Shadow
track_gethostbyname strlen size_of_hostent s ptr hn =
    let s1 = track_init_inst s hn.h_name (strlen hn.h_name + 1) in
    let s2 = track_pointers (λ p. hn.h_length) hn.h_length s1 hn.h_aliases 0 hn.host_aliases in
    let s3 = track_pointers (λ p. hn.h_length) hn.h_length s2 hn.h_addr_list 0 hn.addresses in
    track_init_inst s3 ptr size_of_hostent

-- The list of `struct addrinfo`, each with its address and its `ai_addr`.
unfoldable pub track_addresses : ℕ → ℕ → Shadow → List (ℕ × ℕ) → Shadow
track_addresses size_of_sockaddr size_of_addrinfo s [] = s
track_addresses size_of_sockaddr size_of_addrinfo s ((res, ai_addr) ∷ rest) =
    track_addresses size_of_sockaddr size_of_addrinfo
      (track_init_inst (track_init_inst s ai_addr size_of_sockaddr) res size_of_addrinfo) rest

unfoldable pub track_getaddrinfo : ℕ → ℕ → Shadow → ℕ → List (ℕ × ℕ) → Shadow
track_getaddrinfo size_of_sockaddr size_of_addrinfo s ptr list =
    track_init_inst (track_addresses size_of_sockaddr size_of_addrinfo s list) ptr 8

-- `trackReadLink`, where `val` is what `readlink` returned, and -1 is `none`.
unfoldable pub track_read_link : Shadow → ℕ → Option ℕ → Shadow
track_read_link s ptr none = s
track_read_link s ptr (some val) = track_init_inst s ptr val
