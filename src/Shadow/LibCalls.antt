-- ===== src/Shadow/LibCalls.antt =====
-- runtime/DynamicTypeChecks/TypeRuntime.cpp: the tags of what the C library returns. `strlen`, of
-- the C library, reads the program's memory and is an argument; so are the pointers that stand in
-- the program's structures.
use poolalloc_3_1_upstreamed.Prelude.{
  ℕ, zero, suc, ◌+◌, ◌-◌, ◌*◌, List, [], ◌∷◌, ltb, ◌==◌, if◌then◌else◌,
}
use poolalloc_3_1_upstreamed.Shadow.Memory.{Shadow}
use poolalloc_3_1_upstreamed.Shadow.Runtime.{track_init_inst, copy_type_info}

-- `for` over pointers, the last of which is not null: each string with its terminator.
unfoldable pub track_strings : (ℕ → ℕ) → Shadow → List ℕ → Shadow
track_strings strlen s [] = s
track_strings strlen s (p ∷ ps) = track_strings strlen (track_init_inst s p (strlen p + 1)) ps

abbrev pub count_of : List ℕ → ℕ
count_of [] = 0
count_of (p ∷ ps) = suc (count_of ps)

-- `trackArgvType`; `sizeof(char*)` is 8.
unfoldable pub track_argv_type : (ℕ → ℕ) → Shadow → ℕ → List ℕ → Shadow
track_argv_type strlen s argv strings =
    track_init_inst (track_strings strlen s strings) argv ((count_of strings + 1) * 8)

-- `trackEnvpType`: the strings up to the null pointer.
unfoldable pub track_envp_type : (ℕ → ℕ) → Shadow → ℕ → List ℕ → Shadow
track_envp_type strlen s envp strings =
    track_init_inst (track_strings strlen s strings) envp ((count_of strings + 1) * 8)

unfoldable pub track_string_input : (ℕ → ℕ) → Shadow → ℕ → Shadow
track_string_input strlen s ptr = track_init_inst s ptr (strlen ptr + 1)

-- `trackctype` and `trackctype_32`, where `p` is what `ptr` points to and the elements have `width`
-- bytes.
unfoldable pub track_ctype : ℕ → Shadow → ℕ → ℕ → Shadow
track_ctype width s ptr p =
    track_init_inst (track_init_inst s ptr 8) (p - 128 * width) (width * 384)

unfoldable pub track_strncpy_inst : (ℕ → ℕ) → Shadow → ℕ → ℕ → ℕ → Shadow
track_strncpy_inst strlen s dst src size =
    copy_type_info s dst src (if ltb (strlen src) size then strlen src + 1 else size)

unfoldable pub track_strcpy_inst : (ℕ → ℕ) → Shadow → ℕ → ℕ → Shadow
track_strcpy_inst strlen s dst src = copy_type_info s dst src (strlen src + 1)

unfoldable pub track_strcat_inst : (ℕ → ℕ) → Shadow → ℕ → ℕ → Shadow
track_strcat_inst strlen s dst src = copy_type_info s (dst + strlen dst) src (strlen src + 1)

unfoldable pub track_getcwd : (ℕ → ℕ) → Shadow → ℕ → Shadow
track_getcwd strlen s ptr = if ptr == 0 then s else track_init_inst s ptr (strlen ptr + 1)

unfoldable pub track_gethostname : (ℕ → ℕ) → Shadow → ℕ → Shadow
track_gethostname strlen s ptr = track_init_inst s ptr (strlen ptr + 1)

-- The members `pw_name`, `pw_dir` and `pw_shell`, and `sizeof(struct passwd)`.
unfoldable pub track_getpwuid : (ℕ → ℕ) → ℕ → Shadow → ℕ → ℕ → ℕ → ℕ → Shadow
track_getpwuid strlen size_of_passwd s p pw_name pw_dir pw_shell =
    let s1 = track_init_inst s pw_name (strlen pw_name + 1) in
    let s2 = track_init_inst s1 pw_dir (strlen pw_dir + 1) in
    let s3 = track_init_inst s2 pw_shell (strlen pw_shell + 1) in
    track_init_inst s3 p size_of_passwd

-- `trackaccept` and `trackgetsockname`, where `bytes` is what `size` points to, not negative.
unfoldable pub track_socket : Shadow → ℕ → ℕ → Shadow
track_socket s ptr bytes = track_init_inst s ptr bytes

unfoldable pub track_pipe : Shadow → ℕ → Shadow
track_pipe s ptr = track_init_inst s ptr (4 * 2)

-- The loop of `trackpoll`, with `nfds - i` rounds left.
unfoldable pub track_poll_loop : ℕ → Shadow → ℕ → ℕ → ℕ → Shadow
track_poll_loop size_of_pollfd s fds i zero = s
track_poll_loop size_of_pollfd s fds i (suc n) =
    track_poll_loop size_of_pollfd (track_init_inst s (fds + i * size_of_pollfd) size_of_pollfd) fds
      (i + 1) n

unfoldable pub track_poll : ℕ → Shadow → ℕ → ℕ → Shadow
track_poll size_of_pollfd s fds nfds = track_poll_loop size_of_pollfd s fds 0 nfds
