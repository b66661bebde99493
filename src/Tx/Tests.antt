-- ===== src/Tx/Tests.antt =====
-- Requests to the transmitter of src/stream_web/gnuradio_tx.py, and an upload.
use Prim.Native.String.{String}
use sdr_docker.Base.{ℕ, refl, true, some, none, List, [], ◌∷◌, arith}
use sdr_docker.Base.Int.{pos}
use sdr_docker.Base.Floats.{milli_floats}
use sdr_docker.Tx.{TxFile, readable, wants_packet}
use sdr_docker.Tx.Files.{api_tx_files_upload}
use sdr_docker.Tx.Files.Listing.{api_tx_files_list, IsListing, Lists, api_tx_files_list-upload}
use sdr_docker.Tx.Requests.{
  Env, Request, given, asks_freq, asks_start, asks_attn, asks_stop, asks_status, handle_all,
}
use sdr_docker.Tx.Requests.Steps.{IsOrder}
use sdr_docker.Tx.Requests.Served.{AllServed, defaults, requests-AllServed}

abbrev every_file : String → TxFile
every_file path = readable

abbrev env : Env
env = record { opens = true; takes = true; starts = true; file_at = every_file }

-- The order of the thousandths.
milli-IsOrder : IsOrder milli_floats
milli-IsOrder = record {
  irreflexive = λ a. ground arith;
  asymmetric = λ a b h. ground arith;
  bounds = refl;
  default_fits = record { not_below = refl; not_above = refl };
}

abbrev asked : List (Env × Request milli_floats)
asked =
    (env, asks_freq (some (given (pos 2480000000))))
    ∷ (env, asks_start (wants_packet (some "packet.iq") true))
    ∷ (env, asks_attn (some (given (pos 100000))))
    ∷ (env, asks_stop)
    ∷ (env, asks_status)
    ∷ []

requests-AllServed_example :
    AllServed milli_floats (defaults milli_floats) (handle_all milli_floats asked none)
requests-AllServed_example = requests-AllServed milli_floats milli-IsOrder asked

-- A file in the place of `a`, and another after it.
abbrev saved_before : List (List ℕ × List ℕ)
saved_before = ((98 ∷ [], 5 ∷ []) ∷ (97 ∷ [], 7 ∷ []) ∷ [])

abbrev hash : List ℕ → List ℕ
hash content = 0 ∷ content

api_tx_files_list-upload_example :
    let r = api_tx_files_upload hash (some (46 ∷ 46 ∷ 47 ∷ 97 ∷ [], 1 ∷ 2 ∷ [])) saved_before in
    IsListing hash r.1 (api_tx_files_list hash r.1) × Lists hash saved_before r
api_tx_files_list-upload_example =
    api_tx_files_list-upload hash (46 ∷ 46 ∷ 47 ∷ 97 ∷ []) (1 ∷ 2 ∷ []) saved_before
