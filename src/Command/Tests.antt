-- ===== src/Command/Tests.antt =====
-- Runs of the commands smtp, http, dns and ping at concrete inputs.
use Prim.Native.String.{String}
use gopoller.Common.Tests.{ℕ, ◌≡◌, refl, ◌↔◌, ◌⊎◌, ◌+◌, arith, inl, inr, Bool, false, none, some}
use gopoller.Common.Lists.{List, All, occurrences, [], ◌∷◌}
use gopoller.Common.Int.{ℤ, pos, ltb_ℤ, eqb_ℤ}
use gopoller.Check.State.{state_ok, state_crit}
use gopoller.Command.Response.{Thresholds, IsGraded}
use gopoller.Command.Smtp
use gopoller.Command.Smtp.TextProto.{
  Conn, System, new_system, Reach, here, next, dial, keep, talk, update, greeted, dialled, greeting,
  connected, answering,
}
use gopoller.Command.Smtp.Sharing.{IsOwnUse, open_conns, own_connections}
use gopoller.Command.Smtp.Misdirect.{shared_may_misdirect}
use gopoller.Command.Http
use gopoller.Command.Dns
use gopoller.Command.Ping

abbrev half_and_whole_second : Thresholds
half_and_whole_second = record {
  warn_resp_time_threshold = pos 500000000;
  crit_resp_time_threshold = pos 1000000000;
}

abbrev no_text : ℤ → String
no_text i = ""

abbrev smtp_errors : Smtp.Errors String
smtp_errors = record { is_not_ready = λ e. false; is_deadline_exceeded = λ e. false }

abbrev helo : Smtp.Command
helo = record { expected_response_code = pos 250; thresholds = half_and_whole_second }

abbrev slow_server : Smtp.Client String
slow_server = record { connect = none; close = none; cmd = inr (pos 250, pos 700000000) }

abbrev broken_server : Smtp.Client String
broken_server = record { connect = none; close = none; cmd = inl "broken pipe" }

run-eq-none_iff_example : ((Smtp.run smtp_errors no_text 1 (pos 0) helo broken_server).1 ≡ none) ↔ (
    (broken_server.connect ≡ none)
    × (((a : ℤ × ℤ) × (broken_server.cmd ≡ inr a)) ⊎ (broken_server.close ≡ none)))
run-eq-none_iff_example = Smtp.run-eq-none_iff smtp_errors no_text 1 (pos 0) helo broken_server

-- Every command has a client of its own; 4 has connected.
abbrev conn_of_4 : Conn
conn_of_4 = record { command = 4; number = 0 }

abbrev past_dial : System
past_dial = record new_system {
  phase = update new_system.phase 4 (dialled conn_of_4);
  dials = 1;
  opened = 4 ∷ [];
}

abbrev after_keep : System
after_keep = record past_dial {
  phase = update past_dial.phase 4 greeting;
  text = update past_dial.text 4 (some conn_of_4);
}

abbrev after_greeting : System
after_greeting = record after_keep {
  phase = update after_keep.phase 4 connected;
  uses = (4, conn_of_4) ∷ [];
}

connecting : Reach (λ i. i) new_system after_greeting
connecting =
    next (next (next here (dial new_system 4 refl)) (keep past_dial 4 conn_of_4 refl))
      (talk after_keep 4 conn_of_4 greeted refl refl)

own_connections_example :
    All IsOwnUse after_greeting.uses
    × ((i : ℕ)
        → occurrences i after_greeting.opened
          ≡ open_conns (after_greeting.phase i)
            + occurrences i after_greeting.closed
            + occurrences i after_greeting.abandoned)
own_connections_example = own_connections (λ i. i) (λ i j e. e) connecting

-- All commands share one client.
shared_may_misdirect_example :
    (t : System) × Reach (λ i. 0) new_system t
    × (c : Conn) × (c.command ≡ 2)
    × (t.phase 1 ≡ answering)
    × (rest : List (ℕ × Conn)) × (t.uses ≡ (1, c) ∷ rest)
shared_may_misdirect_example = shared_may_misdirect (λ i. 0) 1 2 refl (ground arith)

abbrev http_errors : Http.Errors String
http_errors = record { is_deadline_exceeded = λ e. false; is_tls_verify = λ e. false }

abbrev get_page : Http.Command
get_page = record { expected_response_code = pos 200; thresholds = half_and_whole_second }

abbrev moved_page : Http.Exchange String
moved_page = record { request = none; answer = inr (pos 301, pos 1000) }

answered_run-IsGraded_example :
    ((Http.run http_errors no_text 1 (pos 0) get_page moved_page).1 ≡ none)
    × IsGraded half_and_whole_second false
        (pos 1000)
        (Http.run http_errors no_text 1 (pos 0) get_page moved_page).0.state
answered_run-IsGraded_example =
    Http.answered_run-IsGraded http_errors no_text 1 (pos 0) get_page moved_page (pos 301)
      (pos 1000) refl refl

abbrev resolver : Dns.Resolver String
resolver = record {
  lookup_host = ("10.0.0.1" ∷ "10.0.0.2" ∷ [], none);
  lookup_cname = ("www.example.org.", none);
  lookup_mx = ([], none);
  lookup_txt = ([], none);
  lookup_addr = ([], none);
}

abbrev mx_text : ℕ × String → String
mx_text x = x.1

abbrev never : String → Bool
never e = false

abbrev host_query : Dns.Command
host_query = record {
  query_type = Dns.host;
  expected = some ("10.0.0.2" ∷ []);
  thresholds = half_and_whole_second;
}

abbrev cname_query : Dns.Command
cname_query = record {
  query_type = Dns.cname;
  expected = some ("www.example.org." ∷ []);
  thresholds = half_and_whole_second;
}

run_cname_expected_example :
    ((Dns.run mx_text never no_text 1 (pos 0) cname_query resolver (pos 5)).0.state ≡ state_crit)
    × ((Dns.run mx_text never no_text 1 (pos 0) cname_query resolver (pos 5)).0.reason_code
        ≡ "UNEXPECTED_RESP")
run_cname_expected_example =
    Dns.run_cname_expected mx_text never no_text 1 (pos 0) cname_query resolver (pos 5)
      "www.example.org." [] refl refl refl

-- Losses in percent.
abbrev percent : Ping.Loss ℤ
percent = record { is_total = eqb_ℤ (pos 100); above = λ a b. ltb_ℤ b a; text = no_text }

abbrev pings : Ping.Command ℤ
pings = record {
  packet_loss_warn_threshold = pos 5;
  packet_loss_crit_threshold = pos 50;
  avg_rtt_warn_threshold = pos 0;
  avg_rtt_crit_threshold = pos 1000;
  std_dev_rtt_warn_threshold = pos 0;
  std_dev_rtt_crit_threshold = pos 0;
}

abbrev lossy : Ping.PingerStats ℤ
lossy = record { packet_loss = pos 20; avg_rtt = pos 5000; std_dev_rtt = pos 10 }

run-ok_iff_example :
    ((Ping.run percent {E = String} no_text 1 (pos 0) pings (inr lossy)).0.state ≡ state_ok)
    ↔ Ping.IsHealthy percent pings lossy
run-ok_iff_example = Ping.run-ok_iff percent String no_text 1 (pos 0) pings lossy
