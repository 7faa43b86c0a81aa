-- ===== src/Tests/Browsers.antt =====
-- The browser build.
use duckdb_splunk.Prelude.{◌++◌, ◌≡◌, refl, false, some, none, [], ◌∷◌, codes, arith}
use duckdb_splunk.Client.Connection.{default_client}
use duckdb_splunk.Client.Retry.{Response, response, decide}
use duckdb_splunk.Client.Browser.{HttpResponse, browser_http_error_detail, browser_reply}
use duckdb_splunk.Client.Browser.Agreement.{IsSame, Agrees, browser_reply-Agrees}
use duckdb_splunk.Tests.Samples.{ascii}

-- A refusal whose text has two lines.
abbrev refused : HttpResponse
refused = record {
  status = 404;
  success = false;
  body = codes "no" ++ b'\n' ∷ codes "way";
  error = [];
}

abbrev refused_natively : Response
refused_natively = record { status = 404; retry_after = none; body = refused.body }

detail-flat : browser_http_error_detail ascii refused ≡ codes "no way"
unfolding browser_http_error_detail
detail-flat = refl

refused-IsSame : IsSame refused refused_natively
refused-IsSame = record {
  same_status = refl;
  same_body = refl;
  in_range = (omega arith, omega arith);
  success_lem = refl;
}

browser_reply-Agrees_example :
    Agrees ascii default_client refused
      (decide ascii default_client false default_client.retries (response refused_natively))
      (browser_reply ascii default_client false (some refused))
browser_reply-Agrees_example =
    browser_reply-Agrees ascii default_client false refused refused_natively refused-IsSame
