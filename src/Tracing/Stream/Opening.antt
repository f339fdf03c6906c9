-- ===== src/Tracing/Stream/Opening.antt =====
-- How `OpenTracingStreamClientInterceptor` opens a stream: what is returned, and who has to finish
-- the span.
use triple.Base.{
  arith, proceed, Option, none, panicked, ◌+◌, returned, false, ◌≡◌, ◌>>=◌, some, Exit, String,
  Bool, List, refl,
}
use triple.Tracing.Unary.{otgrpc_opts, parent_context}
use triple.Tracing.ErrorClass.{StatusLib}
use triple.Tracing.Metadata.{inject_span_context, Tracer, MetadataLib}
use triple.Tracing.Options.{is_excluded, TracingOption}
use triple.Common.Context.{Context}
use triple.Tracing.Stream.{
  wrap_reply, new_open_tracing_client_stream, traced, plain, Opened, StreamReply,
  stream_client_interceptor, Streamer,
}
use triple.Tracing.World.{finishes, rpc_client, start_span, World}
use triple.Common.Error.{Err, nil_value}
use triple.Tracing.Stream.Client.{finishes-report_end}

module _ {X : Type 0} (from_error : StatusLib) (lib : MetadataLib) (tracer : Tracer X)
    (opt_funcs : List TracingOption) (ctx : Context) (server_streams : Bool) (method : String)
    (streamer : Streamer) (w : World) where
  -- The world and the context in which the streamer of a traced stream runs.
  unfoldable pub before_streamer : World × Context
  before_streamer =
      let w1 = (start_span method (parent_context tracer ctx) rpc_client w).0 in
      (
        (inject_span_context lib tracer ctx w.next_span w1).0,
        record ctx { outgoing = some w.next_md },
      )

  -- What is returned for a reply with the given error, and what becomes of the span.
  abbrev ReplyOpensAs : Option Err → StreamReply → World → World × Exit Opened → Type 0
  ReplyOpensAs (some x) r v (u, e) =
      (e ≡ returned (plain r)) × (finishes w.next_span u ≡ finishes w.next_span v + 1)
  ReplyOpensAs none r v (u, e) =
      (u ≡ v)
      × (e
          ≡ returned (
              traced (
                new_open_tracing_client_stream from_error (otgrpc_opts opt_funcs) r.stream method
                  server_streams w.next_span v)))

  -- The same for any end of the streamer.
  abbrev pub OpensAs : World × Exit StreamReply → World × Exit Opened → Type 0
  OpensAs (v, panicked) (u, e) = (e ≡ panicked) × (finishes w.next_span u ≡ finishes w.next_span v)
  OpensAs (v, returned r) result = ReplyOpensAs r.err r v result

  wrap_reply-OpensAs :
      (err : Option Err) (r : StreamReply) (v : World)
      → ReplyOpensAs err r v
          (wrap_reply from_error lib tracer opt_funcs err r w.next_span method server_streams v)
  unfolding wrap_reply ◌>>=◌
  wrap_reply-OpensAs none r v = (refl, refl)
  wrap_reply-OpensAs (some x) r v = (
    refl,
    ground (
      arith,
      finishes-report_end from_error (otgrpc_opts opt_funcs) w.next_span w.next_span (some x) v,
    ),
  )

  proceed-OpensAs :
      (v : World) (e : Exit StreamReply)
      → OpensAs
          (v, e)
          (proceed e
            (λ reply.
              wrap_reply from_error lib tracer opt_funcs reply.err reply w.next_span method
                server_streams)
            v)
  proceed-OpensAs v panicked = (refl, refl)
  proceed-OpensAs v (returned r) = wrap_reply-OpensAs r.err r v

  -- A traced stream calls the streamer once, under a new span. Where the streamer panics, so does the
  -- interceptor, and the span is left unfinished; where it returns an error, that reply is returned
  -- and the span is finished; and else a traced stream is returned, with its span unfinished.
  pub stream_client_interceptor-opens :
      is_excluded (otgrpc_opts opt_funcs) (parent_context tracer ctx) method nil_value nil_value
        ≡ false
      → OpensAs (streamer before_streamer.1 method before_streamer.0) (
          stream_client_interceptor from_error lib tracer opt_funcs ctx server_streams method
            streamer w)
  unfolding stream_client_interceptor before_streamer start_span inject_span_context ◌>>=◌
  stream_client_interceptor-opens inc =
      let end = streamer before_streamer.1 method before_streamer.0 in
      rw inc (proceed-OpensAs end.0 end.1)
