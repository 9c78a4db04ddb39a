-- ===== src/Message/Np2TsLogin.antt =====
-- core/message.cpp and core/message.h, `Np2TsLogin`: a peer logs in at the tracker.
use rabbitstreamer.Prelude.{
  ℕ, ◌+◌, ◌*◌, ◌<◌, ◌^◌, ◌≡◌, List, ◌++◌, [], length, length-append, All, arith,
}
use rabbitstreamer.CoreStruct.{md5_len, in_addr, float32, read_object, write_object}
use rabbitstreamer.CoreStruct.Layouts.{
  write_object-Writes, read_object-Reads, in_addr-Returns, float32-Returns, in_addr-length,
}
use rabbitstreamer.Streamer.{
  Writer, Reader, ◌>>◌, ◌>>=◌, finish, return, write_char, write_int, write_short, write_nbytes,
  read_char, read_int, read_short, read_nbytes, write_each, read_each,
}
use rabbitstreamer.Streamer.Bytes.{le, length-le, from_le-le_1, from_le-le_2, from_le-le_4}
use rabbitstreamer.Streamer.Laws.{
  Writes, Reads, then-Writes, finish-Writes, write_char-Writes, write_int-Writes,
  write_short-Writes, write_nbytes-Writes, write_each-Writes, bytes_of, length-bytes_of, bind-Reads,
  return-Reads, get_as_type-Reads, read_nbytes-Reads, read_each-Reads,
}
use rabbitstreamer.Message.{Message, header_size}
use rabbitstreamer.Message.Framing.{RoundTrips, RoundTrips-pack}

pub record Np2TsLogin : Type 0 where
  pub login_id : ℕ
  pub password : List ℕ
  pub client_version : ℕ
  pub listening_port : ℕ
  pub local_ip_list_size : ℕ
  pub ip_addr : List ℕ

-- `NP2TS_LOGIN`
abbrev pub tag : ℕ
tag = 0x30

unfoldable pub parse : Reader Np2TsLogin
parse = do
  login_id ← read_int
  password ← read_nbytes md5_len
  client_version ← read_object float32
  listening_port ← read_short
  local_ip_list_size ← read_char
  ip_addr ← read_each (read_object in_addr) local_ip_list_size
  return (record {
    login_id = login_id;
    password = password;
    client_version = client_version;
    listening_port = listening_port;
    local_ip_list_size = local_ip_list_size;
    ip_addr = ip_addr;
  })

unfoldable pub pack_submsg : Np2TsLogin → Writer
pack_submsg m = do
  write_char tag
  write_int m.login_id
  write_nbytes m.password
  write_object float32 m.client_version
  write_short m.listening_port
  write_char m.local_ip_list_size
  write_each (write_object in_addr) m.local_ip_list_size m.ip_addr
  finish

unfoldable pub reserve_pack_size : Np2TsLogin → ℕ
reserve_pack_size m = header_size + 4 + md5_len + 4 + 2 + 1 + m.local_ip_list_size * 4

abbrev pub message : Message Np2TsLogin
message = record { parse = parse; pack_submsg = pack_submsg; reserve_pack_size = reserve_pack_size }

-- The fields are in the range of their C types, and the arrays are as long as their count says.
pub record IsValid (m : Np2TsLogin) : Type 0 where
  pub login_id : m.login_id < 2 ^ 32
  pub password : length m.password ≡ md5_len
  pub client_version : m.client_version < 2 ^ 32
  pub listening_port : m.listening_port < 2 ^ 16
  pub local_ip_list_size : m.local_ip_list_size < 2 ^ 8
  pub ip_addr : All (λ a. a < 2 ^ 32) m.ip_addr
  pub length-ip_addr : length m.ip_addr ≡ m.local_ip_list_size

body : Np2TsLogin → List ℕ
body m =
    le 4 m.login_id
    ++ (m.password
        ++ (float32.to_bytes m.client_version
            ++ (le 2 m.listening_port
                ++ (le 1 m.local_ip_list_size ++ (bytes_of in_addr.to_bytes m.ip_addr ++ [])))))

pack_submsg-Writes : (m : Np2TsLogin) → IsValid m → Writes (pack_submsg m) (le 1 tag ++ body m)
unfolding pack_submsg body
pack_submsg-Writes m v = then-Writes (write_char-Writes tag) (
    then-Writes (write_int-Writes m.login_id) (
      then-Writes (write_nbytes-Writes m.password) (
        then-Writes (write_object-Writes float32 m.client_version) (
          then-Writes (write_short-Writes m.listening_port) (
            then-Writes (write_char-Writes m.local_ip_list_size) (
              then-Writes
                (write_each-Writes (write_object in_addr) in_addr.to_bytes
                  (write_object-Writes in_addr) m.local_ip_list_size m.ip_addr v.length-ip_addr)
                (finish-Writes)))))))

parse-Reads : (m : Np2TsLogin) → IsValid m → Reads parse (body m) m
unfolding parse body
parse-Reads m v =
    bind-Reads _ (get_as_type-Reads 4 m.login_id (from_le-le_4 m.login_id v.login_id)) (
      bind-Reads _ (read_nbytes-Reads md5_len m.password v.password) (
        bind-Reads _
          (read_object-Reads float32 m.client_version
            (float32-Returns m.client_version v.client_version))
          (bind-Reads _
            (get_as_type-Reads 2 m.listening_port (from_le-le_2 m.listening_port v.listening_port))
            (bind-Reads _
              (get_as_type-Reads 1 m.local_ip_list_size
                (from_le-le_1 m.local_ip_list_size v.local_ip_list_size))
              (bind-Reads _
                (read_each-Reads (read_object in_addr) in_addr.to_bytes (λ a. a < 2 ^ 32)
                  (λ a h. read_object-Reads in_addr a (in_addr-Returns a h)) m.local_ip_list_size
                  m.ip_addr v.length-ip_addr v.ip_addr)
                (return-Reads m))))))

reserve-body : (m : Np2TsLogin) → IsValid m → reserve_pack_size m ≡ header_size + length (body m)
unfolding reserve_pack_size body
reserve-body m v = omega (
  arith,
  length-append {0},
  length-le,
  (float32-Returns m.client_version v.client_version).full,
  length-bytes_of in_addr.to_bytes in_addr.sizeof in_addr-length m.ip_addr,
)

-- A login with fields in range comes back, as the same message under its own type, from the
-- packet that `pack` makes of it in any memory; the packet has exactly the reserved size.
pub Np2TsLogin-RoundTrips :
    (memory : ℕ → ℕ) (m : Np2TsLogin) → IsValid m → RoundTrips message memory tag m
Np2TsLogin-RoundTrips memory m v =
    RoundTrips-pack message memory m tag (body m) (pack_submsg-Writes m v) (parse-Reads m v)
      (reserve-body m v) (unfold reserve_pack_size in omega arith) (omega arith)
