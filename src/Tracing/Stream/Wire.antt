-- ===== src/Tracing/Stream/Wire.antt =====
-- A stream through both interceptors: the server's part runs when the metadata of the opened stream
-- have arrived, which may be long after the client's part has returned.
use triple.Tracing.Metadata.Propagation.{
  carried-md_at, extract-inject, carried, values_under, HasGoMaps, Collects, IsMetadataLib,
}
use triple.Base.{◌∙◌, ap, ◌++◌, none, some, false, Option, ◌≡◌, ℕ, Bool, Exit, String, List, refl}
use triple.Tracing.ErrorClass.{StatusLib}
use triple.Tracing.Metadata.{extract_span_context, Tracer, MetadataLib}
use triple.Tracing.Options.{
  is_excluded, DecoratorReturns, DecoratorKeepsFinishes, KeepsFinishes, TracingOption,
}
use triple.Common.Context.{Context}
use triple.Common.Error.{nil_value, Err}
use triple.Tracing.Unary.{otgrpc_opts, parent_context}
use triple.Tracing.World.{rpc_client, rpc_server, finishes, start_span, World}
use triple.Tracing.Metadata.Carrier.{written_under}
use triple.Tracing.Stream.{stream_client_interceptor, Opened, Streamer}
use triple.Tracing.Stream.Opening.{before_streamer, OpensAs, stream_client_interceptor-opens}
use triple.Tracing.Stream.Server.{
  stream_server_interceptor, stream_server_interceptor_lem, ServerStream, StreamHandler,
}

module _ {X : Type 0} (from_error : StatusLib) (lib : MetadataLib) (client_tracer : Tracer X)
    (server_tracer : Tracer (List (String × String))) (client_opts server_opts : List TracingOption)
    (ctx server_ctx : Context) (server_streams : Bool) (method : String) (streamer : Streamer)
    (handler : StreamHandler) (w v : World) where
  abbrev before : World × Context
  before =
      before_streamer from_error lib client_tracer client_opts ctx server_streams method streamer w

  -- The server's stream, whose incoming metadata are those that the streamer was called with.
  abbrev arrived : ServerStream
  arrived = record { context = record server_ctx { incoming = before.1.outgoing } }

  abbrev pub Opening : Type 0
  Opening = World × Exit Opened

  -- Neither side leaves the stream out; in `v`, where the server's part starts, the map of the
  -- metadata is as the streamer got it; the server's span is new, and neither the handler nor the
  -- decorator, which comes back, finishes it.
  pub record IsTraceable : Type 0 where
    pub client_included :
        is_excluded
          (otgrpc_opts client_opts)
          (parent_context client_tracer ctx)
          method
          nil_value
          nil_value
        ≡ false
    pub server_included :
        (p : Option ℕ) → is_excluded (otgrpc_opts server_opts) p method nil_value nil_value ≡ false
    pub unchanged : v.md_at w.next_md ≡ before.0.md_at w.next_md
    pub go_maps : HasGoMaps w
    pub fresh : finishes v.next_span v ≡ 0
    pub handler_keeps : (t : ServerStream) → KeepsFinishes v.next_span (handler t)
    pub decorator_keeps : DecoratorKeepsFinishes v.next_span (otgrpc_opts server_opts)
    pub decorator_returns : DecoratorReturns (otgrpc_opts server_opts)

  -- What a traced stream comes to, by what the client's part and the server's part leave.
  pub record IsTraced (opening : Opening) (run : World × Exit (Option Err)) : Type 0 where
    pub opens :
        OpensAs from_error lib client_tracer client_opts ctx server_streams method streamer w
          (streamer before.1 method before.0)
          opening
    pub seen : List (String × String)
    pub carries :
        (j : String)
        → values_under j seen
          ≡ carried j ctx.outgoing w
            ++ written_under j (client_tracer.inject_pairs (client_tracer.context_of w.next_span))
    pub handled :
        run.1
        ≡ (handler
            (record {
              context = record server_ctx {
                incoming = some w.next_md;
                active_span = some v.next_span;
              };
            })
            (start_span method (server_tracer.extract_end seen none).0 rpc_server v).0).1
    pub server_once : finishes v.next_span run.0 ≡ 1

  stream-parent :
      IsTraceable
      → IsMetadataLib lib
      → Collects server_tracer
      → (seen : List (String × String)) × ((extract_span_context lib server_tracer arrived.context
            v).0
          ≡ (server_tracer.extract_end seen none).0)
        × ((j : String)
            → values_under j seen
              ≡ carried j ctx.outgoing w
                ++ written_under j
                    (client_tracer.inject_pairs (client_tracer.context_of w.next_span)))
  unfolding before_streamer start_span
  stream-parent ok h c =
      let started = (start_span method (parent_context client_tracer ctx) rpc_client w).0 in
      let (seen, read, holds) =
        extract-inject lib client_tracer server_tracer ctx arrived.context w.next_span started v h c
          ok.go_maps refl ok.unchanged in
      (
        seen,
        ap (λ p. p.0) read,
        λ j.
            holds j
            ∙ ap
                (λ vs.
                  vs
                  ++ written_under j
                      (client_tracer.inject_pairs (client_tracer.context_of w.next_span)))
                (carried-md_at j ctx.outgoing started w refl),
      )

  -- A stream that neither side leaves out makes one trace. The client's part calls the streamer
  -- under its span and returns what that makes of its reply. The server's part may start in any
  -- later world in which the map of the metadata is as it was: its span has as parent what the
  -- server's tracer makes of the pairs that it reads, which hold under each key what the caller's
  -- metadata held and then what the client's tracer wrote; the handler runs under it, the
  -- interceptor ends as the handler does, and the span is finished exactly once. The span is new, the
  -- handler and the decorator do not finish it, the decorator comes back, maps in memory are Go
  -- maps, the metadata package does what it documents, and the server's tracer keeps all pairs.
  pub traced_stream_lem :
      IsTraceable
      → IsMetadataLib lib
      → Collects server_tracer
      → IsTraced
          (stream_client_interceptor from_error lib client_tracer client_opts ctx server_streams
            method streamer w)
          (stream_server_interceptor from_error lib server_tracer server_opts arrived method handler
            v)
  traced_stream_lem ok h c =
      let (seen, parent, carries) = stream-parent ok h c in
      let (_, once, ends) =
        stream_server_interceptor_lem from_error lib server_tracer server_opts arrived method
          handler v ok.decorator_returns ok.decorator_keeps ok.fresh ok.handler_keeps in
      record {
        opens =
            stream_client_interceptor-opens from_error lib client_tracer client_opts ctx
              server_streams method streamer w ok.client_included;
        seen = seen;
        carries = carries;
        handled =
            ends (ok.server_included _)
            ∙ ap
                (λ p.
                  (handler
                    (record {
                      context = record server_ctx {
                        incoming = before.1.outgoing;
                        active_span = some v.next_span;
                      };
                    })
                    (start_span method p rpc_server v).0).1)
                parent
            ∙ unfold before_streamer in refl;
        server_once = once (ok.server_included _);
      }
