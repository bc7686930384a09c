-- ===== src/Example/Answers.antt =====
-- example/main.cpp: the calls that the program has made, after any events.
use cpp_unix_domain_stream.Prelude.{◌≡◌, List}
use cpp_unix_domain_stream.Runtime.{Runtime}
use cpp_unix_domain_stream.Client.State.{ClientSignal}
use cpp_unix_domain_stream.Client.Events.{Event as ClientEvent, step as step_of_client}
use cpp_unix_domain_stream.Client.Growth.{step-HasGrown as step_of_client-HasGrown}
use cpp_unix_domain_stream.Server.State.{ServerSignal}
use cpp_unix_domain_stream.Server.Events.{Event as ServerEvent, step as step_of_server}
use cpp_unix_domain_stream.Server.Growth.{step-HasGrown as step_of_server-HasGrown}
use cpp_unix_domain_stream.Example.App.{App}
use cpp_unix_domain_stream.Example.Events.{step}
use cpp_unix_domain_stream.Example.Replies.{IsAnswered}

-- What the server and the client have emitted, which the calls do not change.
abbrev HaveTold : List ServerSignal → List ClientSignal → App → Type 0
HaveTold told told_client a = (a.server.signals ≡ told) × (a.client.signals ≡ told_client)

-- The calls are those for all that was emitted.
abbrev IsFaithful : App → Type 0
IsFaithful a = IsAnswered a.server.signals a.client.signals a
