-- ===== src/Quic/Extractor.antt =====
-- internal/quic/initial.go: `SNIExtractor` gathers CRYPTO chunks over several datagrams, and
-- `ParseInitialSNI` reads one datagram alone.
pub mod Done
pub mod Hello
use mirage_chaff.Base.{ℕ, ◌+◌, Bool, true, List, [], ◌++◌, leb, if◌then◌else◌}
use mirage_chaff.Base.Text.{Text, text_eq}
use mirage_chaff.Base.Scan.{Scan, ok, stop, panic, stuck, ◌>>=◌}
use mirage_chaff.Passthrough.Sni.{parse_sni}
use mirage_chaff.Quic.Frames.{Chunk}
use mirage_chaff.Quic.Join.{join_crypto_chunks}
use mirage_chaff.Quic.Initial.{Crypto, extract_initial_crypto}

pub record Extractor : Type 0 where
  pub chunks : List Chunk
  pub packets : ℕ

abbrev pub new_extractor : Extractor
new_extractor = record { chunks = []; packets = 0 }

-- What `Feed` returns, with the extractor behind it.
pub record Fed : Type 0 where
  pub after : Extractor
  pub sni : Text
  pub done : Bool

abbrev pub unfound : Extractor → Fed
unfound e = record { after = e; sni = []; done = leb 8 e.packets }

-- With the chunks of a datagram that could be decrypted.
unfoldable pub feed_chunks : Extractor → Scan Fed
feed_chunks e = do
  s ← parse_sni (join_crypto_chunks e.chunks)
  ok (if text_eq s [] then unfound e else record { after = e; sni = s; done = true })

module _ (c : Crypto) where
  unfoldable pub feed : Extractor → List ℕ → Scan Fed
  feed e b =
      let counted = record e { packets = e.packets + 1 } in
      elim (extract_initial_crypto c b) [
        | ok chunks ↦ feed_chunks (record counted { chunks = e.chunks ++ chunks })
        | stop ↦ ok (unfound counted)
        | panic ↦ panic
        | stuck ↦ stuck
      ]

  -- `stop` is the error return.
  unfoldable pub parse_initial_sni : List ℕ → Scan Text
  parse_initial_sni b = do
    chunks ← extract_initial_crypto c b
    s ← parse_sni (join_crypto_chunks chunks)
    if text_eq s [] then stop else ok s
