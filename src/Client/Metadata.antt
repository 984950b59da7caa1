-- ===== src/Client/Metadata.antt =====
-- clients/cpp/libjabi/peripherals/metadata.cpp. A std::string is the list of its bytes.
use jabi.Prelude.{ℕ, List, [], ltb, length}
use jabi.Client.{put16, at16}
use jabi.Client.Interface.{
  Action, Interface, pure, ◌>>=◌, ◌>>◌, throw_if, request, expect_size, data_too_long,
}

module _ {W : Type 0} (i : Interface W) where
  unfoldable pub serial : Action W (List ℕ)
  serial = do resp ← i.send_request (request 0 0 0 []); pure resp.payload

  unfoldable pub num_inst : ℕ → Action W ℕ
  num_inst id = do
    resp ← i.send_request (request 0 0 1 (put16 i.endian id))
    ret ← expect_size 2 resp
    pure (at16 i.endian ret 0)

  unfoldable pub echo : List ℕ → Action W (List ℕ)
  echo str = do
    throw_if (ltb i.req_max_size (length str)) data_too_long
    resp ← i.send_request (request 0 0 2 str)
    pure resp.payload

  -- `ret->size` is read without a look at the size of the payload.
  unfoldable pub req_max_size : Action W ℕ
  req_max_size = do resp ← i.send_request (request 0 0 3 []); pure (at16 i.endian resp.payload 0)

  unfoldable pub resp_max_size : Action W ℕ
  resp_max_size = do resp ← i.send_request (request 0 0 4 []); pure (at16 i.endian resp.payload 0)

  unfoldable pub custom : List ℕ → Action W (List ℕ)
  custom bytes = do
    throw_if (ltb i.req_max_size (length bytes)) data_too_long
    resp ← i.send_request (request 0 0 5 bytes)
    pure resp.payload
