-- ===== src/Tests/Reconcile.antt =====
-- An SPF record beside a verification record.
use justmail.Prelude.{[], ◌∷◌, none, Text, codes, List}
use justmail.Reconcile.{ProviderRecord, ExpectedRecord}

abbrev same : Text → Text
same s = s

abbrev txt : Text → Text → ProviderRecord
txt id content = record {
  id = id;
  type = "TXT";
  name = codes "ex.org";
  content = content;
  priority = none;
  ttl = 300;
}

abbrev existing : List ProviderRecord
existing =
    txt (codes "1") (codes "google-site-verification=x")
    ∷ txt (codes "2") (codes "v=spf1 -all")
    ∷ txt (codes "3") (codes "v=spf1 ~all")
    ∷ []

abbrev spf : ExpectedRecord
spf = record { type = "TXT"; name = codes "ex.org"; content = codes "v=spf1 mx -all" }
