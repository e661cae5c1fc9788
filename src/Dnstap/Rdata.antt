-- ===== src/Dnstap/Rdata.antt =====
-- internal/adapter/inbound/dnstap/server.go: the data of a resource record as text.
--
-- Parameter: the table `dns.TypeToString`, which gives the empty text for an unknown type.
use dns_flow.Prelude.{ℕ, Text, codes, show, List, [], ◌∷◌, ◌++◌, if◌then◌else◌}
use dns_flow.Dnstap.Message.{
  RData, a, aaaa, cname, mx, ns, ptr, soa, txt, srv, ds, dnskey, rrsig, nsec, nsec3, caa, loc,
  sshfp, tlsa, https, svcb, fallback, SvcbData, SvcbPair,
}

-- The parts with a space between two of them: `strings.Join`, and a format of `%d` and `%s`.
unfoldable pub spaced : List Text → Text
spaced [] = []
spaced (p ∷ []) = p
spaced (p ∷ q ∷ ps) = p ++ b' ' ∷ spaced (q ∷ ps)

unfoldable pub svcb_pairs : List SvcbPair → Text
svcb_pairs [] = []
svcb_pairs (kv ∷ rest) =
    (if kv.no_default_alpn
      then codes " no-default-alpn"
      else b' ' ∷ (kv.key_name ++ b'=' ∷ kv.value))
    ++ svcb_pairs rest

unfoldable pub svcb_string : SvcbData → Text
svcb_string v = (show v.priority ++ b' ' ∷ v.target) ++ svcb_pairs v.pairs

module _ (type_to_string : ℕ → Text) where
  -- The loop over a type bitmap.
  unfoldable pub type_names : List ℕ → Text
  type_names [] = []
  type_names (t ∷ ts) = b' ' ∷ (type_to_string t ++ type_names ts)

  unfoldable pub rdata_to_string : RData → Text
  unfolding spaced svcb_string svcb_pairs type_names
  rdata_to_string (a address) = address
  rdata_to_string (aaaa address) = address
  rdata_to_string (cname target) = target
  rdata_to_string (mx preference exchange) = spaced (show preference ∷ exchange ∷ [])
  rdata_to_string (ns host) = host
  rdata_to_string (ptr host) = host
  rdata_to_string (soa host mbox serial refresh retry expire minttl) =
      spaced
        (host ∷ mbox ∷ show serial ∷ show refresh ∷ show retry ∷ show expire ∷ show minttl ∷ [])
  rdata_to_string (txt strings) = spaced strings
  rdata_to_string (srv priority weight port target) =
      spaced (show priority ∷ show weight ∷ show port ∷ target ∷ [])
  rdata_to_string (ds key_tag algorithm digest_type digest) =
      spaced (show key_tag ∷ show algorithm ∷ show digest_type ∷ digest ∷ [])
  rdata_to_string (dnskey flags protocol algorithm public_key) =
      spaced (show flags ∷ show protocol ∷ show algorithm ∷ public_key ∷ [])
  rdata_to_string
        (rrsig covered algorithm labels ttl expiration inception key_tag signer signature) =
      spaced (
        type_to_string covered
        ∷ show algorithm
        ∷ show labels
        ∷ show ttl
        ∷ show expiration
        ∷ show inception
        ∷ show key_tag
        ∷ signer
        ∷ signature
        ∷ [])
  rdata_to_string (nsec next_domain types) = next_domain ++ type_names types
  rdata_to_string (nsec3 hash flags iterations salt next_domain types) =
      spaced (show hash ∷ show flags ∷ show iterations ∷ salt ∷ next_domain ∷ [])
      ++ type_names types
  rdata_to_string (caa flag tag value) = spaced (show flag ∷ tag ∷ value ∷ [])
  rdata_to_string (loc version size horiz_pre vert_pre latitude longitude altitude) = spaced (
      show version
      ∷ show size
      ∷ show horiz_pre
      ∷ show vert_pre
      ∷ show latitude
      ∷ show longitude
      ∷ show altitude
      ∷ [])
  rdata_to_string (sshfp algorithm type finger_print) =
      spaced (show algorithm ∷ show type ∷ finger_print ∷ [])
  rdata_to_string (tlsa usage selector matching_type certificate) =
      spaced (show usage ∷ show selector ∷ show matching_type ∷ certificate ∷ [])
  rdata_to_string (https v) = svcb_string v
  rdata_to_string (svcb v) = svcb_string v
  rdata_to_string (fallback printed) = printed
