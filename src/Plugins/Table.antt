-- ===== src/Plugins/Table.antt =====
-- The statements of `flb_plugins_register` in fluent-bit/flb_plugins.h: which plugin each of its
-- blocks copies, in order. The plugins themselves are defined outside the headers.
use my_repo.Base.{List, [], ◌∷◌, ◌++◌, map}

-- The five lists of `struct flb_config` that hold plugins.
pub data Kind : Type 0 where
  custom input output filter processor : Kind

-- The `extern` structs.
pub data Symbol : Type 0 where
  custom_calyptia_plugin in_kubernetes_events_plugin in_fluentbit_metrics_plugin : Symbol
  in_prometheus_scrape_plugin in_emitter_plugin in_tail_plugin in_dummy_plugin : Symbol
  in_http_plugin in_statsd_plugin in_opentelemetry_plugin in_elasticsearch_plugin : Symbol
  in_splunk_plugin in_event_test_plugin in_event_type_plugin in_storage_backlog_plugin : Symbol
  in_nginx_exporter_metrics_plugin in_stream_processor_plugin in_winlog_plugin : Symbol
  in_winstat_plugin in_winevtlog_plugin in_windows_exporter_metrics_plugin : Symbol
  in_syslog_plugin in_udp_plugin in_tcp_plugin in_lib_plugin in_forward_plugin : Symbol
  in_random_plugin out_azure_plugin out_azure_blob_plugin : Symbol
  out_azure_logs_ingestion_plugin out_azure_kusto_plugin out_calyptia_plugin : Symbol
  out_counter_plugin out_datadog_plugin out_es_plugin out_file_plugin : Symbol
  out_forward_plugin out_http_plugin out_influxdb_plugin out_logdna_plugin : Symbol
  out_loki_plugin out_nrlogs_plugin out_null_plugin out_opensearch_plugin : Symbol
  out_skywalking_plugin out_slack_plugin out_splunk_plugin out_stackdriver_plugin : Symbol
  out_stdout_plugin out_syslog_plugin out_tcp_plugin out_udp_plugin out_lib_plugin : Symbol
  out_flowcounter_plugin out_gelf_plugin out_websocket_plugin : Symbol
  out_cloudwatch_logs_plugin out_kinesis_firehose_plugin out_kinesis_streams_plugin : Symbol
  out_opentelemetry_plugin out_prometheus_exporter_plugin : Symbol
  out_prometheus_remote_write_plugin out_s3_plugin out_vivo_exporter_plugin : Symbol
  out_chronicle_plugin filter_alter_size_plugin filter_aws_plugin : Symbol
  filter_checklist_plugin filter_ecs_plugin filter_record_modifier_plugin : Symbol
  filter_throttle_plugin filter_throttle_size_plugin filter_type_converter_plugin : Symbol
  filter_kubernetes_plugin filter_modify_plugin filter_multiline_plugin : Symbol
  filter_nest_plugin filter_parser_plugin filter_expect_plugin filter_grep_plugin : Symbol
  filter_rewrite_tag_plugin filter_log_to_metrics_plugin filter_lua_plugin : Symbol
  filter_stdout_plugin filter_geoip2_plugin filter_nightfall_plugin : Symbol
  processor_labels_plugin processor_attributes_plugin : Symbol

abbrev pub custom_plugins : List Symbol
custom_plugins = custom_calyptia_plugin ∷ []

abbrev pub input_first_plugins : List Symbol
input_first_plugins =
    in_kubernetes_events_plugin ∷ in_fluentbit_metrics_plugin ∷ in_prometheus_scrape_plugin
    ∷ in_emitter_plugin ∷ in_tail_plugin ∷ in_dummy_plugin ∷ in_http_plugin ∷ in_statsd_plugin
    ∷ in_opentelemetry_plugin ∷ in_elasticsearch_plugin ∷ in_splunk_plugin ∷ in_event_test_plugin
    ∷ in_event_type_plugin ∷ []

abbrev pub input_second_plugins : List Symbol
input_second_plugins =
    in_storage_backlog_plugin ∷ in_nginx_exporter_metrics_plugin ∷ in_stream_processor_plugin
    ∷ in_winlog_plugin ∷ in_winstat_plugin ∷ in_winevtlog_plugin
    ∷ in_windows_exporter_metrics_plugin ∷ in_syslog_plugin ∷ in_udp_plugin ∷ in_tcp_plugin
    ∷ in_lib_plugin ∷ in_forward_plugin ∷ in_random_plugin ∷ []

abbrev pub output_first_plugins : List Symbol
output_first_plugins =
    out_azure_plugin ∷ out_azure_blob_plugin ∷ out_azure_logs_ingestion_plugin
    ∷ out_azure_kusto_plugin ∷ out_calyptia_plugin ∷ out_counter_plugin ∷ out_datadog_plugin
    ∷ out_es_plugin ∷ out_file_plugin ∷ out_forward_plugin ∷ out_http_plugin ∷ out_influxdb_plugin
    ∷ out_logdna_plugin ∷ []

abbrev pub output_second_plugins : List Symbol
output_second_plugins =
    out_loki_plugin ∷ out_nrlogs_plugin ∷ out_null_plugin ∷ out_opensearch_plugin
    ∷ out_skywalking_plugin ∷ out_slack_plugin ∷ out_splunk_plugin ∷ out_stackdriver_plugin
    ∷ out_stdout_plugin ∷ out_syslog_plugin ∷ out_tcp_plugin ∷ out_udp_plugin ∷ out_lib_plugin ∷ []

abbrev pub output_third_plugins : List Symbol
output_third_plugins =
    out_flowcounter_plugin ∷ out_gelf_plugin ∷ out_websocket_plugin ∷ out_cloudwatch_logs_plugin
    ∷ out_kinesis_firehose_plugin ∷ out_kinesis_streams_plugin ∷ out_opentelemetry_plugin
    ∷ out_prometheus_exporter_plugin ∷ out_prometheus_remote_write_plugin ∷ out_s3_plugin
    ∷ out_vivo_exporter_plugin ∷ out_chronicle_plugin ∷ []

abbrev pub filter_first_plugins : List Symbol
filter_first_plugins =
    filter_alter_size_plugin ∷ filter_aws_plugin ∷ filter_checklist_plugin ∷ filter_ecs_plugin
    ∷ filter_record_modifier_plugin ∷ filter_throttle_plugin ∷ filter_throttle_size_plugin
    ∷ filter_type_converter_plugin ∷ filter_kubernetes_plugin ∷ filter_modify_plugin
    ∷ filter_multiline_plugin ∷ []

abbrev pub filter_second_plugins : List Symbol
filter_second_plugins =
    filter_nest_plugin ∷ filter_parser_plugin ∷ filter_expect_plugin ∷ filter_grep_plugin
    ∷ filter_rewrite_tag_plugin ∷ filter_log_to_metrics_plugin ∷ filter_lua_plugin
    ∷ filter_stdout_plugin ∷ filter_geoip2_plugin ∷ filter_nightfall_plugin ∷ []

abbrev pub processor_plugins : List Symbol
processor_plugins = processor_labels_plugin ∷ processor_attributes_plugin ∷ []

-- A block of the function: the list it adds to, and the plugin it copies.
pub record Block : Type 0 where
  pub kind : Kind
  pub symbol : Symbol

abbrev pub blocks_of : Kind → List Symbol → List Block
blocks_of k = map (λ s. record { kind = k; symbol = s })

abbrev pub blocks : List Block
blocks =
    blocks_of custom custom_plugins
    ++ blocks_of input input_first_plugins
    ++ blocks_of input input_second_plugins
    ++ blocks_of output output_first_plugins
    ++ blocks_of output output_second_plugins
    ++ blocks_of output output_third_plugins
    ++ blocks_of filter filter_first_plugins
    ++ blocks_of filter filter_second_plugins
    ++ blocks_of processor processor_plugins
