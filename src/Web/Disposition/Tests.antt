-- ===== src/Web/Disposition/Tests.antt =====
-- A name with a quote.
use grafted_keys.Prelude.{Text, codes, arith}
use grafted_keys.Web.Disposition.{content_disposition}
use grafted_keys.Web.Disposition.Escaping.{IsHeader, content_disposition-IsHeader}

abbrev quoted : Text
quoted = codes "a\"b"

content_disposition-IsHeader_example : IsHeader quoted (content_disposition (λ t. t) quoted)
content_disposition-IsHeader_example =
    content_disposition-IsHeader (λ t. t) quoted (λ P t h. h) (omega arith)
